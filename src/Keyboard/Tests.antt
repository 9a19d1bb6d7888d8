-- ===== src/Keyboard/Tests.antt =====
-- The left shift key, and the letter `a` while it is held.
use campix.Base.{◌≡◌, refl, some}
use native.Mathlib.Decide.{ℕ_discrete}
use campix.Keyboard.{
  character, left_shift, right_control, key_down, key_up, Key-discrete, same_key, Keyboard, initial,
  default_en_us, handler, map_key,
}
use campix.Keyboard.ScanCodes.{read_keyboard_layout_en_us}
use campix.Keyboard.Handler.{
  IsHeld, initial-IsHeld, Presses, Releases, handler-Presses, handler-Releases,
}

abbrev shifted : Keyboard
shifted = (handler (some (left_shift, key_down)) initial).1

shifted-IsHeld : IsHeld shifted
shifted-IsHeld = (handler-Presses left_shift initial initial-IsHeld).is_held

handler-Presses_example :
    let r = handler (some (character 97, key_down)) shifted in
    Presses (character 97) shifted r.0 r.1
handler-Presses_example = handler-Presses (character 97) shifted shifted-IsHeld

handler-Releases_example :
    let r = handler (some (left_shift, key_up)) shifted in Releases left_shift shifted r.0 r.1
handler-Releases_example = handler-Releases left_shift shifted shifted-IsHeld

shift_read : read_keyboard_layout_en_us 0x2A 0 ≡ some (left_shift, key_down)
unfolding read_keyboard_layout_en_us
shift_read = refl

control_read : read_keyboard_layout_en_us 0xE0 0x9D ≡ some (right_control, key_up)
unfolding read_keyboard_layout_en_us
control_read = refl

upper_case : map_key default_en_us (character 97) 1 ≡ character 65
unfolding default_en_us same_key Key-discrete ℕ_discrete
upper_case = refl
