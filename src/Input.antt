-- ===== src/Input.antt =====
-- The state of the controller, the keyboard and the mouse from frame to frame,
-- src/helpers/InputHelper.cpp and InputHelper.h. What the devices report is a parameter. A signed
-- integer is its pattern of 32 bits; the getters of the mouse convert it to a float, which is left
-- out: they return the integers.
pub mod Frames
pub mod Buttons
mod Tests
use zeldar.Base.{
  ℕ, ◌/◌, ◌%◌, ◌^◌, Bool, true, false, not, ◌&&◌, if◌then◌else◌, ◌==◌, List, get_or, bit_and,
}

-- `BitFlagSet::isBitSet`, for words of `storage_bits` bits.
unfoldable pub is_bit_set : ℕ → List ℕ → ℕ → Bool
is_bit_set storage_bits field index =
    not (bit_and (get_or field (index / storage_bits) 0) (2 ^ (index % storage_bits)) == 0)

-- The part of `NpadBaseState` that is read: `mButtons`, of 64 bits.
pub record NpadBaseState : Type 0 where
  pub buttons : List ℕ

-- `keys`, of 256 bits in words of 64.
pub record KeyboardState : Type 0 where
  pub keys : List ℕ

-- `buttons`, of 32 bits.
pub record MouseState : Type 0 where
  pub x : ℕ
  pub y : ℕ
  pub wheel_delta_x : ℕ
  pub wheel_delta_y : ℕ
  pub buttons : List ℕ

-- The static members of `InputHelper`.
pub record InputHelper : Type 0 where
  pub prev_controller_state : NpadBaseState
  pub cur_controller_state : NpadBaseState
  pub prev_keyboard_state : KeyboardState
  pub cur_keyboard_state : KeyboardState
  pub prev_mouse_state : MouseState
  pub cur_mouse_state : MouseState
  pub selected_port : ℕ
  pub is_read_input : Bool
  pub toggle_input : Bool

-- `NpadStyleTag`, the styles that are read.
abbrev pub style_full_key : ℕ
style_full_key = 0

abbrev pub style_handheld : ℕ
style_handheld = 1

abbrev pub style_joy_dual : ℕ
style_joy_dual = 2

abbrev pub style_joy_left : ℕ
style_joy_left = 3

abbrev pub style_joy_right : ℕ
style_joy_right = 4

-- `NpadButton::ZL` and `NpadButton::ZR`.
abbrev pub button_zl : ℕ
button_zl = 8

abbrev pub button_zr : ℕ
button_zr = 9

-- What the devices report in one frame: `GetNpadStyleSet`, `GetNpadState` for each style,
-- `GetKeyboardState` and `GetMouseState`.
pub record Devices : Type 0 where
  pub npad_style_set : ℕ → List ℕ
  pub npad_state : ℕ → ℕ → NpadBaseState
  pub keyboard_state : KeyboardState
  pub mouse_state : MouseState

-- `setPort`.
unfoldable pub set_port : ℕ → InputHelper → InputHelper
set_port port h = record h { selected_port = port }

-- `tryGetContState`: the result and the state; without a known style the state stays.
unfoldable pub try_get_cont_state : Devices → NpadBaseState → ℕ → Bool × NpadBaseState
unfolding is_bit_set
try_get_cont_state d state port =
    let has : ℕ → Bool = is_bit_set 32 (d.npad_style_set port) in
    if has style_full_key
    then (true, d.npad_state style_full_key port)
    else if has style_handheld
    then (true, d.npad_state style_handheld port)
    else if has style_joy_dual
    then (true, d.npad_state style_joy_dual port)
    else if has style_joy_left
    then (true, d.npad_state style_joy_left port)
    else if has style_joy_right
    then (true, d.npad_state style_joy_right port)
    else (false, state)

unfoldable pub is_button_hold : ℕ → InputHelper → Bool
unfolding is_bit_set
is_button_hold button h = is_bit_set 64 h.cur_controller_state.buttons button

unfoldable pub is_button_press : ℕ → InputHelper → Bool
unfolding is_bit_set
is_button_press button h =
    is_bit_set 64 h.cur_controller_state.buttons button
    && not (is_bit_set 64 h.prev_controller_state.buttons button)

unfoldable pub is_button_release : ℕ → InputHelper → Bool
unfolding is_bit_set
is_button_release button h =
    not (is_bit_set 64 h.cur_controller_state.buttons button)
    && is_bit_set 64 h.prev_controller_state.buttons button

unfoldable pub is_key_hold : ℕ → InputHelper → Bool
unfolding is_bit_set
is_key_hold key h = is_bit_set 64 h.cur_keyboard_state.keys key

unfoldable pub is_key_press : ℕ → InputHelper → Bool
unfolding is_bit_set
is_key_press key h =
    is_bit_set 64 h.cur_keyboard_state.keys key
    && not (is_bit_set 64 h.prev_keyboard_state.keys key)

unfoldable pub is_key_release : ℕ → InputHelper → Bool
unfolding is_bit_set
is_key_release key h =
    not (is_bit_set 64 h.cur_keyboard_state.keys key)
    && is_bit_set 64 h.prev_keyboard_state.keys key

unfoldable pub is_mouse_hold : ℕ → InputHelper → Bool
unfolding is_bit_set
is_mouse_hold button h = is_bit_set 32 h.cur_mouse_state.buttons button

unfoldable pub is_mouse_press : ℕ → InputHelper → Bool
unfolding is_bit_set
is_mouse_press button h =
    is_bit_set 32 h.cur_mouse_state.buttons button
    && not (is_bit_set 32 h.prev_mouse_state.buttons button)

unfoldable pub is_mouse_release : ℕ → InputHelper → Bool
unfolding is_bit_set
is_mouse_release button h =
    not (is_bit_set 32 h.cur_mouse_state.buttons button)
    && is_bit_set 32 h.prev_mouse_state.buttons button

-- `updatePadState`; the states are read, then the toggle is.
unfoldable pub read_states : Devices → InputHelper → InputHelper
unfolding try_get_cont_state
read_states d h = record h {
  prev_controller_state = h.cur_controller_state;
  cur_controller_state = (try_get_cont_state d h.cur_controller_state h.selected_port).1;
  is_read_input = false;
  prev_keyboard_state = h.cur_keyboard_state;
  cur_keyboard_state = d.keyboard_state;
  prev_mouse_state = h.cur_mouse_state;
  cur_mouse_state = d.mouse_state;
}

unfoldable pub update_pad_state : Devices → InputHelper → InputHelper
unfolding read_states is_button_hold is_button_press
update_pad_state d h =
    let h' = read_states d h in
    if is_button_hold button_zl h' && is_button_press button_zr h'
    then record h' { toggle_input = not h'.toggle_input }
    else h'

-- `getMouseCoords` and `getScrollDelta`.
unfoldable pub get_mouse_coords : InputHelper → ℕ × ℕ
get_mouse_coords h = (h.cur_mouse_state.x, h.cur_mouse_state.y)

unfoldable pub get_scroll_delta : InputHelper → ℕ × ℕ
get_scroll_delta h = (h.cur_mouse_state.wheel_delta_x, h.cur_mouse_state.wheel_delta_y)
