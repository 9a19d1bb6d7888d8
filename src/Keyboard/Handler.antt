-- ===== src/Keyboard/Handler.antt =====
-- That the keyboard handler keeps track of the keys that are held down, and of their modifiers.
use campix.Base.{
  ℕ, ◌≡◌, inl, inr, refl, sym, ap, ap₂, ◌∙◌, Bool, true, false, ◌&&◌, ◌||◌, not, Option, some, List,
  [], ◌∷◌, ◌++◌, ltb, ltb_false→le, Bool-cases, bit_and, if◌then◌else◌, arith,
}
use mathlib.Core.Bool.{or-false}
use campix.Base.Bits.{bit, bit_not, bit-bit_and, bit-bit_or, bit-bit_not, bit-zero}
use campix.Keyboard.{
  Key, same_key, key_down, key_up, key_repeat, modifiers, contains, map_key, KeyboardEvent,
  Keyboard, initial, handler, or_new, default_en_us,
}
use campix.Keyboard.Held.{
  has, Distinct, same_key-eq, same_key_refl, has-append, has-contains, has-remove_key, has_above,
  contains-append, contains-remove_key, contains-remove_key_self, Distinct-append,
  Distinct-remove_key, modifiers-lt,
}

abbrev pub held : Keyboard → List Key
held s = or_new [] s.down_keys

-- No key is held twice, and the modifiers are those of the keys that are held.
pub record IsHeld (s : Keyboard) : Type 0 where
  pub distinct : Distinct (held s)
  pub modifiers : (i : ℕ) → bit s.modifiers i ≡ has i (held s)

pub initial-IsHeld : IsHeld initial
initial-IsHeld = record { distinct = tt; modifiers = bit-zero }

-- What a key that goes down or up does: the state before, the event and the state after.
pub record Presses (key : Key) (s : Keyboard) (event : Option KeyboardEvent) (s' : Keyboard)
    : Type 0 where
  pub event_same :
      event
      ≡ some (record {
        kind = if contains (held s) key then key_repeat else key_down;
        modifiers = s'.modifiers;
        raw_key = key;
        mapped_key = map_key (or_new default_en_us s.layout) key s'.modifiers;
      })
  pub is_held : IsHeld s'
  pub down : contains (held s') key ≡ true
  pub others : (l : Key) → same_key key l ≡ false → contains (held s') l ≡ contains (held s) l

pub record Releases (key : Key) (s : Keyboard) (event : Option KeyboardEvent) (s' : Keyboard)
    : Type 0 where
  pub event_same :
      event
      ≡ some (record {
        kind = key_up;
        modifiers = s'.modifiers;
        raw_key = key;
        mapped_key = map_key (or_new default_en_us s.layout) key s'.modifiers;
      })
  pub is_held : IsHeld s'
  pub up : contains (held s') key ≡ false
  pub others : (l : Key) → same_key key l ≡ false → contains (held s') l ≡ contains (held s) l

-- The list after a key goes down.
abbrev pressed : List Key → Key → List Key
pressed keys key = if contains keys key then keys else keys ++ key ∷ []

pressed-Distinct : (keys : List Key) (key : Key) → Distinct keys → Distinct (pressed keys key)
pressed-Distinct keys key d = elim (Bool-cases (contains keys key)) [
  | inl c ↦ rw c d
  | inr c ↦ rw c (Distinct-append keys key d c)
]

has-pressed :
    (i : ℕ) (keys : List Key) (key : Key)
    → has i (pressed keys key) ≡ (has i keys || bit (modifiers key) i)
has-pressed i keys key = elim (Bool-cases (contains keys key)) [
  | inl c ↦ rw c (sym (has-contains i keys key c))
  | inr c ↦ rw c (has-append i keys key)
]

contains-pressed :
    (keys : List Key) (key l : Key)
    → contains (pressed keys key) l ≡ (contains keys l || same_key key l)
contains-pressed keys key l = elim (Bool-cases (contains keys key)) [
  | inr c ↦ rw c (contains-append keys key l)
  | inl c ↦ elim (Bool-cases (same_key key l)) [
    | inl e ↦
        let here : contains keys l ≡ true = ap (contains keys) (sym (same_key-eq key l e)) ∙ c in
        rw (c, here) refl
    | inr e ↦ rw (c, e) (sym (or-false (contains keys l)))
  ]
]

released_bit :
    (i m : ℕ) (keys : List Key) (key : Key)
    → bit m i ≡ has i keys
    → bit (bit_and m (bit_not 16 (modifiers key))) i ≡ (has i keys && not (bit (modifiers key) i))
released_bit i m keys key e =
    bit-bit_and m (bit_not 16 (modifiers key)) i
    ∙ ap₂ ◌&&◌ e (bit-bit_not 16 (modifiers key) i (modifiers-lt key))
    ∙ within
  where
    within :
        (has i keys && (ltb i 16 && not (bit (modifiers key) i)))
        ≡ (has i keys && not (bit (modifiers key) i))
    within = elim (Bool-cases (ltb i 16)) [
      | inl c ↦ rw c refl
      | inr c ↦ rw (has_above i keys (ltb_false→le i 16 c)) refl
    ]

-- When the keys that are held are tracked, and a key goes down, then it is held, every other key is
-- as before, and the modifiers are again those of the keys that are held. The event is a repetition
-- just when the key was held before; it has the new modifiers, and the key that the layout has for
-- them.
pub handler-Presses :
    (key : Key) (s : Keyboard)
    → IsHeld s
    → let r = handler (some (key, key_down)) s in Presses key s r.0 r.1
unfolding handler
handler-Presses key s h = record {
  event_same = refl;
  is_held = record {
    distinct = pressed-Distinct (held s) key h.distinct;
    modifiers = λ i.
        bit-bit_or s.modifiers (modifiers key) i
        ∙ ap (λ (b : Bool). b || bit (modifiers key) i) (h.modifiers i)
        ∙ sym (has-pressed i (held s) key);
  };
  down = contains-pressed (held s) key key ∙ rw (same_key_refl key) (ground arith);
  others = λ l e. contains-pressed (held s) key l ∙ rw e (ground arith);
}

-- When the keys that are held are tracked, and a key goes up, then it is not held, every other key is
-- as before, and the modifiers are again those of the keys that are held. The event tells that the
-- key goes up; it has the new modifiers, and the key that the layout has for them.
pub handler-Releases :
    (key : Key) (s : Keyboard)
    → IsHeld s
    → let r = handler (some (key, key_up)) s in Releases key s r.0 r.1
unfolding handler
handler-Releases key s h = record {
  event_same = refl;
  is_held = record {
    distinct = Distinct-remove_key (held s) key h.distinct;
    modifiers = λ i.
        released_bit i s.modifiers (held s) key (h.modifiers i)
        ∙ sym (has-remove_key i (held s) key h.distinct);
  };
  up = contains-remove_key_self (held s) key h.distinct;
  others = contains-remove_key (held s) key;
}
