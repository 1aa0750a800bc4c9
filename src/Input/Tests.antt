-- ===== src/Input/Tests.antt =====
-- Two frames of src/helpers/InputHelper.cpp.
use zeldar.Base.{ℕ, ◌≡◌, refl, true, false, not, ◌&&◌, List, [], ◌∷◌, replicate}
use zeldar.Input.{
  KeyboardState, MouseState, InputHelper, Devices, is_bit_set, update_pad_state, is_button_hold,
  is_button_press, is_button_release, is_key_hold, is_key_press, is_key_release, is_mouse_hold,
  is_mouse_press, is_mouse_release,
}
use zeldar.Input.Frames.{
  IsDisconnected, frames, struck, flipped, update_pad_state-edges, update_pad_state-IsDisconnected,
  frames-toggle_input,
}

abbrev no_keys : KeyboardState
no_keys = record { keys = replicate 4 0 }

abbrev no_mouse : MouseState
no_mouse = record { x = 0; y = 0; wheel_delta_x = 0; wheel_delta_y = 0; buttons = 0 ∷ [] }

-- A frame whose Pro Controller holds the buttons of a word, and one without a controller.
abbrev holding : ℕ → Devices
holding w = record {
  npad_style_set = λ port. 1 ∷ [];
  npad_state = λ style port. record { buttons = w ∷ [] };
  keyboard_state = no_keys;
  mouse_state = no_mouse;
}

abbrev unplugged : Devices
unplugged = record {
  npad_style_set = λ port. 0 ∷ [];
  npad_state = λ style port. record { buttons = 0 ∷ [] };
  keyboard_state = no_keys;
  mouse_state = no_mouse;
}

-- ZL is held.
abbrev started : InputHelper
started = record {
  prev_controller_state = record { buttons = 0 ∷ [] };
  cur_controller_state = record { buttons = 0x100 ∷ [] };
  prev_keyboard_state = no_keys;
  cur_keyboard_state = no_keys;
  prev_mouse_state = no_mouse;
  cur_mouse_state = no_mouse;
  selected_port = 0;
  is_read_input = true;
  toggle_input = false;
}

update_pad_state-edges_example :
    let h' = update_pad_state (holding 0x300) started in
    (is_button_press 9 h' ≡ (is_button_hold 9 h' && not (is_button_hold 9 started)))
    × (is_button_release 9 h' ≡ (not (is_button_hold 9 h') && is_button_hold 9 started))
    × (is_key_press 9 h' ≡ (is_key_hold 9 h' && not (is_key_hold 9 started)))
    × (is_key_release 9 h' ≡ (not (is_key_hold 9 h') && is_key_hold 9 started))
    × (is_mouse_press 9 h' ≡ (is_mouse_hold 9 h' && not (is_mouse_hold 9 started)))
    × (is_mouse_release 9 h' ≡ (not (is_mouse_hold 9 h') && is_mouse_hold 9 started))
update_pad_state-edges_example = update_pad_state-edges (holding 0x300) started 9

update_pad_state-IsDisconnected_example :
    let h' = update_pad_state unplugged started in
    (is_button_hold 8 h' ≡ is_button_hold 8 started)
    × (is_button_press 8 h' ≡ false)
    × (is_button_release 8 h' ≡ false)
    × (h'.toggle_input ≡ started.toggle_input)
unfolding IsDisconnected is_bit_set
update_pad_state-IsDisconnected_example =
    update_pad_state-IsDisconnected unplugged started 8 (refl, refl, refl, refl, refl)

abbrev two_frames : List Devices
two_frames = holding 0x300 ∷ holding 0x100 ∷ []

frames-toggle_input_example :
    (frames two_frames started).toggle_input
    ≡ flipped (struck two_frames started) started.toggle_input
frames-toggle_input_example = frames-toggle_input two_frames started

toggled : (frames two_frames started).toggle_input ≡ true
unfolding frames update_pad_state is_bit_set
toggled = refl
