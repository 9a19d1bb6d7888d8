-- ===== src/Keyboard/ScanCodes.antt =====
-- `read_keyboard_layout_en_us` of src/interrupts/handlers/irq/irq1_keyboard.rs: the keys of the scan
-- codes.
use campix.Base.{ℕ, Option, none, some, List, [], ◌∷◌, ◌==◌, bit_and, not, if◌then◌else◌}
use campix.Keyboard.{
  Key, KeyboardEventKind, key_up, key_down, acpi, apps, backspace, calculator, caps_lock, character,
  cursor_down, cursor_left, cursor_right, cursor_up, delete, email, end, enter, escape, f, home,
  insert, keypad, keypad_enter, left_alt, left_control, left_gui, left_shift, media_select,
  multimedia, mute, my_computer, next_track, num_lock, page_down, page_up, play, power, right_alt,
  right_control, right_gui, right_shift, scroll_lock, sleep, space, stop, tab, volume_down,
  volume_up, wake, www_back, www_favorites, www_forward, www_refresh, www_search, www_stop,
}

-- The keys whose codes follow 0xE0.
abbrev pub extended_keys : List (ℕ × Key)
extended_keys =
    (0x19, multimedia next_track)
    ∷ (0x1C, keypad_enter)
    ∷ (0x1D, right_control)
    ∷ (0x20, multimedia mute)
    ∷ (0x21, multimedia calculator)
    ∷ (0x22, multimedia play)
    ∷ (0x24, multimedia stop)
    ∷ (0x2E, multimedia volume_down)
    ∷ (0x30, multimedia volume_up)
    ∷ (0x35, keypad 47)
    ∷ (0x38, right_alt)
    ∷ (0x47, home)
    ∷ (0x48, cursor_up)
    ∷ (0x49, page_up)
    ∷ (0x4B, cursor_left)
    ∷ (0x4D, cursor_right)
    ∷ (0x4F, end)
    ∷ (0x50, cursor_down)
    ∷ (0x51, page_down)
    ∷ (0x52, insert)
    ∷ (0x53, delete)
    ∷ (0x5B, left_gui)
    ∷ (0x5C, right_gui)
    ∷ (0x5D, apps)
    ∷ (0x5E, acpi power)
    ∷ (0x5F, acpi sleep)
    ∷ (0x63, acpi wake)
    ∷ (0x65, multimedia www_search)
    ∷ (0x66, multimedia www_favorites)
    ∷ (0x67, multimedia www_refresh)
    ∷ (0x68, multimedia www_stop)
    ∷ (0x69, multimedia www_forward)
    ∷ (0x6A, multimedia www_back)
    ∷ (0x6B, multimedia my_computer)
    ∷ (0x6C, multimedia email)
    ∷ (0x6D, multimedia media_select)
    ∷ []

-- The other keys.
abbrev pub keys : List (ℕ × Key)
keys =
    (0x01, escape)
    ∷ (0x02, character 49)
    ∷ (0x03, character 50)
    ∷ (0x04, character 51)
    ∷ (0x05, character 52)
    ∷ (0x06, character 53)
    ∷ (0x07, character 54)
    ∷ (0x08, character 55)
    ∷ (0x09, character 56)
    ∷ (0x0A, character 57)
    ∷ (0x0B, character 48)
    ∷ (0x0C, character 45)
    ∷ (0x0D, character 61)
    ∷ (0x0E, backspace)
    ∷ (0x0F, tab)
    ∷ (0x10, character 113)
    ∷ (0x11, character 119)
    ∷ (0x12, character 101)
    ∷ (0x13, character 114)
    ∷ (0x14, character 116)
    ∷ (0x15, character 121)
    ∷ (0x16, character 117)
    ∷ (0x17, character 105)
    ∷ (0x18, character 111)
    ∷ (0x19, character 112)
    ∷ (0x1A, character 91)
    ∷ (0x1B, character 93)
    ∷ (0x1C, enter)
    ∷ (0x1D, left_control)
    ∷ (0x1E, character 97)
    ∷ (0x1F, character 115)
    ∷ (0x20, character 100)
    ∷ (0x21, character 102)
    ∷ (0x22, character 103)
    ∷ (0x23, character 104)
    ∷ (0x24, character 106)
    ∷ (0x25, character 107)
    ∷ (0x26, character 108)
    ∷ (0x27, character 59)
    ∷ (0x28, character 39)
    ∷ (0x29, character 96)
    ∷ (0x2A, left_shift)
    ∷ (0x2B, character 92)
    ∷ (0x2C, character 122)
    ∷ (0x2D, character 120)
    ∷ (0x2E, character 99)
    ∷ (0x2F, character 118)
    ∷ (0x30, character 98)
    ∷ (0x31, character 110)
    ∷ (0x32, character 109)
    ∷ (0x33, character 44)
    ∷ (0x34, character 46)
    ∷ (0x35, character 47)
    ∷ (0x36, right_shift)
    ∷ (0x37, keypad 42)
    ∷ (0x38, left_alt)
    ∷ (0x39, space)
    ∷ (0x3A, caps_lock)
    ∷ (0x3B, f 1)
    ∷ (0x3C, f 2)
    ∷ (0x3D, f 3)
    ∷ (0x3E, f 4)
    ∷ (0x3F, f 5)
    ∷ (0x40, f 6)
    ∷ (0x41, f 7)
    ∷ (0x42, f 8)
    ∷ (0x43, f 9)
    ∷ (0x44, f 10)
    ∷ (0x45, num_lock)
    ∷ (0x46, scroll_lock)
    ∷ (0x47, keypad 55)
    ∷ (0x48, keypad 56)
    ∷ (0x49, keypad 57)
    ∷ (0x4A, keypad 45)
    ∷ (0x4B, keypad 52)
    ∷ (0x4C, keypad 53)
    ∷ (0x4D, keypad 54)
    ∷ (0x4E, keypad 43)
    ∷ (0x4F, keypad 49)
    ∷ (0x50, keypad 50)
    ∷ (0x51, keypad 51)
    ∷ (0x52, keypad 48)
    ∷ (0x53, keypad 46)
    ∷ (0x57, f 11)
    ∷ (0x58, f 12)
    ∷ []

abbrev pub key_of : ℕ → List (ℕ × Key) → Option Key
key_of code [] = none
key_of code ((c, key) ∷ table) =
    let rest = key_of code table in if c == code then some key else rest

-- The highest bit of a code tells that the key goes up.
abbrev pub kind_of : ℕ → KeyboardEventKind
kind_of scancode = if not (bit_and scancode 0x80 == 0) then key_up else key_down

abbrev pub with_kind : Option Key → ℕ → Option (Key × KeyboardEventKind)
with_kind none scancode = none
with_kind (some key) scancode = some (key, kind_of scancode)

-- `first` and `second` are what the port gives; the second one is read only after 0xE0.
unfoldable pub read_keyboard_layout_en_us : ℕ → ℕ → Option (Key × KeyboardEventKind)
read_keyboard_layout_en_us first second =
    if first == 0xE0
    then with_kind (key_of (bit_and second 0x7F) extended_keys) second
    else with_kind (key_of (bit_and first 0x7F) keys) first
