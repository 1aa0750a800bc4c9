-- ===== src/Input/Frames.antt =====
-- What a frame of src/helpers/InputHelper.cpp reports of the frame before it.
use mathlib.Core.Bool.{Bool, false, not, ◌&&◌}
use zeldar.Base.{
  ℕ, ◌≡◌, refl, ap, ◌∙◌, Bool-cases, inl, inr, List, [], ◌∷◌, zero, suc, if◌then◌else◌, arith,
}
use zeldar.Input.{
  InputHelper, Devices, is_bit_set, try_get_cont_state, read_states, update_pad_state,
  is_button_hold, is_button_press, is_button_release, is_key_hold, is_key_press, is_key_release,
  is_mouse_hold, is_mouse_press, is_mouse_release, style_full_key, style_handheld, style_joy_dual,
  style_joy_left, style_joy_right, button_zl, button_zr,
}

module _ (d : Devices) (h : InputHelper) where
  -- After a frame a button, a key or a mouse button counts as pressed if it is held now and was
  -- not held before the frame, and as released if it was held before and is not held now.
  pub update_pad_state-edges :
      (b : ℕ)
      → let h' = update_pad_state d h in
        (is_button_press b h' ≡ (is_button_hold b h' && not (is_button_hold b h)))
        × (is_button_release b h' ≡ (not (is_button_hold b h') && is_button_hold b h))
        × (is_key_press b h' ≡ (is_key_hold b h' && not (is_key_hold b h)))
        × (is_key_release b h' ≡ (not (is_key_hold b h') && is_key_hold b h))
        × (is_mouse_press b h' ≡ (is_mouse_hold b h' && not (is_mouse_hold b h)))
        × (is_mouse_release b h' ≡ (not (is_mouse_hold b h') && is_mouse_hold b h))
  unfolding update_pad_state read_states is_button_hold is_button_press is_button_release
      is_key_hold is_key_press is_key_release is_mouse_hold is_mouse_press is_mouse_release
  update_pad_state-edges b =
      let read = read_states d h in
      elim (Bool-cases (is_button_hold button_zl read && is_button_press button_zr read)) [
        | inl toggles ↦ rw toggles (refl, refl, refl, refl, refl, refl)
        | inr stays ↦ rw stays (refl, refl, refl, refl, refl, refl)
      ]

  -- Whether ZR is pressed in the frame while ZL is held.
  pub strikes : Bool
  strikes =
      let h' = update_pad_state d h in
      is_button_hold button_zl h' && is_button_hold button_zr h' && not (is_button_hold button_zr h)

  -- No style that is read is connected at the selected port.
  unfoldable pub IsDisconnected : Type 0
  IsDisconnected =
      let has : ℕ → Bool = is_bit_set 32 (d.npad_style_set h.selected_port) in
      (has style_full_key ≡ false)
      × (has style_handheld ≡ false)
      × (has style_joy_dual ≡ false)
      × (has style_joy_left ≡ false)
      × (has style_joy_right ≡ false)

  -- A frame without a controller at the port presses and releases no button: the ones that are
  -- held stay so, and the toggle stays.
  pub update_pad_state-IsDisconnected :
      (b : ℕ)
      → IsDisconnected
      → let h' = update_pad_state d h in
        (is_button_hold b h' ≡ is_button_hold b h)
        × (is_button_press b h' ≡ false)
        × (is_button_release b h' ≡ false)
        × (h'.toggle_input ≡ h.toggle_input)
  unfolding IsDisconnected update_pad_state read_states try_get_cont_state is_button_hold
      is_button_press is_button_release
  update_pad_state-IsDisconnected b (full, hand, dual, left, right) =
      rw (full, hand, dual, left, right) (ground arith)

  -- One frame flips the toggle if ZR is pressed in it while ZL is held, and leaves it otherwise.
  toggle_input-strikes :
      (update_pad_state d h).toggle_input ≡ (if strikes then not h.toggle_input else h.toggle_input)
  unfolding update_pad_state read_states strikes is_button_hold is_button_press
  toggle_input-strikes = ground arith

-- The frames in order.
unfoldable pub frames : List Devices → InputHelper → InputHelper
frames [] h = h
frames (d ∷ ds) h = frames ds (update_pad_state d h)

-- In how many of the frames the toggle is struck.
pub struck : List Devices → InputHelper → ℕ
struck [] h = 0
struck (d ∷ ds) h =
    let rest = struck ds (update_pad_state d h) in if strikes d h then suc rest else rest

pub flipped : ℕ → Bool → Bool
flipped zero b = b
flipped (suc n) b = flipped n (not b)

-- After any frames the toggle is what it was at first, flipped once for every frame in which ZR was
-- pressed while ZL was held.
pub frames-toggle_input :
    (ds : List Devices) (h : InputHelper)
    → (frames ds h).toggle_input ≡ flipped (struck ds h) h.toggle_input
unfolding frames struck flipped
frames-toggle_input [] h = refl
frames-toggle_input (d ∷ ds) h = elim (Bool-cases (strikes d h)) [
  | inl hit ↦
      let h' = update_pad_state d h in
      let now =
        toggle_input-strikes d h
        ∙ ap (λ (c : Bool). if c then not h.toggle_input else h.toggle_input) hit in
      rw hit (frames-toggle_input ds h' ∙ ap (flipped (struck ds h')) now)
  | inr miss ↦
      let h' = update_pad_state d h in
      let now =
        toggle_input-strikes d h
        ∙ ap (λ (c : Bool). if c then not h.toggle_input else h.toggle_input) miss in
      rw miss (frames-toggle_input ds h' ∙ ap (flipped (struck ds h')) now)
]
