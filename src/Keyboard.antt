-- ===== src/Keyboard.antt =====
-- The keyboard of src/drivers/keyboard.rs and src/interrupts/handlers/irq/irq1_keyboard.rs: keys, their
-- modifiers, the layout, and the handler of the keyboard's interrupt. Characters are numbers. A set
-- of modifiers is a number of 16 bits; modifier `b` has the value 2 ^ b.
pub mod ScanCodes
pub mod Handler
pub mod Held
mod Tests
use campix.Base.{
  ℕ, ◌+◌, ◌-◌, ◌^◌, Bool, true, false, ◌&&◌, ◌||◌, not, Option, none, some, List, [], ◌∷◌, ◌++◌,
  bit_and, bit_or, ◌≡◌, refl, ◌==◌, if◌then◌else◌, tabulate,
}
use campix.Base.Bits.{bit_not}
use native.Mathlib.Decide.{ℕ_discrete}

pub data KeyboardEventKind : Type 0 where
  key_down : KeyboardEventKind
  key_repeat : KeyboardEventKind
  key_up : KeyboardEventKind

pub data MultimediaKey : Type 0 where
  next_track : MultimediaKey
  mute : MultimediaKey
  calculator : MultimediaKey
  play : MultimediaKey
  stop : MultimediaKey
  volume_down : MultimediaKey
  volume_up : MultimediaKey
  www_search : MultimediaKey
  www_favorites : MultimediaKey
  www_refresh : MultimediaKey
  www_stop : MultimediaKey
  www_forward : MultimediaKey
  www_back : MultimediaKey
  my_computer : MultimediaKey
  email : MultimediaKey
  media_select : MultimediaKey

pub data AcpiKey : Type 0 where
  power : AcpiKey
  sleep : AcpiKey
  wake : AcpiKey

pub data Key : Type 0 where
  escape : Key
  character : ℕ → Key
  backspace : Key
  tab : Key
  enter : Key
  left_control : Key
  left_shift : Key
  right_shift : Key
  keypad : ℕ → Key
  left_alt : Key
  space : Key
  caps_lock : Key
  f : ℕ → Key
  num_lock : Key
  scroll_lock : Key
  multimedia : MultimediaKey → Key
  keypad_enter : Key
  right_control : Key
  right_alt : Key
  home : Key
  cursor_up : Key
  page_up : Key
  cursor_left : Key
  cursor_right : Key
  end : Key
  cursor_down : Key
  page_down : Key
  insert : Key
  delete : Key
  left_gui : Key
  right_gui : Key
  apps : Key
  acpi : AcpiKey → Key

unfoldable pub Key-discrete : Discrete Key
Key-discrete = hlevel ℕ_discrete

-- `==` of two keys
unfoldable pub same_key : Key → Key → Bool
unfolding Key-discrete
same_key k l = elim (Key-discrete k l) [ yes _ ↦ true | no _ ↦ false ]

-- The place of the modifier that a key has, in `KeyModifier`.
abbrev pub modifier_bit : Key → Option ℕ
modifier_bit left_shift = some 0
modifier_bit left_control = some 1
modifier_bit left_alt = some 2
modifier_bit right_shift = some 7
modifier_bit right_control = some 8
modifier_bit right_alt = some 9
modifier_bit _ = none

abbrev pub modifiers : Key → ℕ
modifiers k = elim (modifier_bit k) [ some b ↦ 2 ^ b | none ↦ 0 ]

-- `printable_char`
abbrev pub printable_char : Key → Option ℕ
printable_char (character c) = some c
printable_char (keypad c) = some c
printable_char space = some 32
printable_char tab = some 9
printable_char enter = some 10
printable_char keypad_enter = some 10
printable_char _ = none

pub record KeyboardEvent : Type 0 where
  pub kind : KeyboardEventKind
  pub modifiers : ℕ
  pub raw_key : Key
  pub mapped_key : Key

-- `ModifiedKey` with the key it is mapped to; the map has one entry for each key and modifiers.
abbrev pub KeyboardLayout : Type 0
KeyboardLayout = List (Key × ℕ × Key)

abbrev pub same_entry : Key → ℕ → Key → ℕ → Bool
same_entry k m k' m' = same_key k k' && (m == m')

-- `map`
abbrev pub map_key : KeyboardLayout → Key → ℕ → Key
map_key [] key m = key
map_key ((k, m', mapped) ∷ layout) key m =
    let rest = map_key layout key m in if same_entry k m' key m then mapped else rest

abbrev pub with_entry : Key → ℕ → Option Key → KeyboardLayout → KeyboardLayout
with_entry key m (some mapped) layout = (key, m, mapped) ∷ layout
with_entry key m none layout = layout

-- `set_map`, vacant or occupied
abbrev pub set_map : Key → ℕ → Option Key → KeyboardLayout → KeyboardLayout
set_map key m mapped [] = with_entry key m mapped []
set_map key m mapped ((k, m', old) ∷ layout) =
    let rest = set_map key m mapped layout in
    if same_entry k m' key m then with_entry key m mapped layout else (k, m', old) ∷ rest

-- The loop of `default_en_us`, with the values of `LeftShift` and `RightShift`.
abbrev pub add_letters : List ℕ → KeyboardLayout → KeyboardLayout
add_letters [] layout = layout
add_letters (letter ∷ letters) layout =
    let upper = some (character (letter - 32)) in
    add_letters letters (
      set_map (character letter) (bit_or (2 ^ 0) (2 ^ 7)) upper (
        set_map (character letter) (2 ^ 7) upper (set_map (character letter) (2 ^ 0) upper layout)))

unfoldable pub default_en_us : KeyboardLayout
default_en_us = add_letters (tabulate 26 (λ i. 97 + i)) []

-- The three `static`s of the handler.
pub record Keyboard : Type 0 where
  pub layout : Option KeyboardLayout
  pub down_keys : Option (List Key)
  pub modifiers : ℕ

abbrev pub initial : Keyboard
initial = record { layout = none; down_keys = none; modifiers = 0 }

abbrev pub contains : List Key → Key → Bool
contains [] key = false
contains (k ∷ ks) key = same_key k key || contains ks key

-- `position` and `Vec::remove`
abbrev pub remove_key : List Key → Key → List Key
remove_key [] key = []
remove_key (k ∷ ks) key = let rest = remove_key ks key in if same_key k key then ks else k ∷ rest

abbrev pub or_new {ℓ} : {A : Type ℓ} → A → Option A → A
or_new new none = new
or_new new (some a) = a

abbrev pub event_of : KeyboardEventKind → KeyboardLayout → Key → ℕ → KeyboardEvent
event_of kind layout key m = record {
  kind = kind;
  modifiers = m;
  raw_key = key;
  mapped_key = map_key layout key m;
}

-- The handler's part after the key is read.
abbrev pub handle_key :
    Key → KeyboardEventKind → KeyboardLayout → List Key → ℕ → KeyboardEvent × Keyboard
handle_key key key_down layout keys m =
    let was_down = contains keys key in
    let m' = bit_or m (modifiers key) in
    (
      event_of (if was_down then key_repeat else key_down) layout key m',
      record {
        layout = some layout;
        down_keys = some (if was_down then keys else keys ++ key ∷ []);
        modifiers = m';
      },
    )
handle_key key key_up layout keys m =
    let m' = bit_and m (bit_not 16 (modifiers key)) in
    (
      event_of key_up layout key m',
      record { layout = some layout; down_keys = some (remove_key keys key); modifiers = m' },
    )
handle_key key key_repeat layout keys m = (
  event_of key_repeat layout key m,
  record { layout = some layout; down_keys = some keys; modifiers = m },
)

-- The handler: `read` is what `read_keyboard_layout_en_us` gives. The event goes to
-- `handle_keyboard_event`.
unfoldable pub handler :
    Option (Key × KeyboardEventKind) → Keyboard → Option KeyboardEvent × Keyboard
handler none s = (
  none,
  record s {
    layout = some (or_new default_en_us s.layout);
    down_keys = some (or_new [] s.down_keys);
  },
)
handler (some (key, kind)) s =
    let handled =
      handle_key key kind (or_new default_en_us s.layout) (or_new [] s.down_keys) s.modifiers in
    (some handled.0, handled.1)
