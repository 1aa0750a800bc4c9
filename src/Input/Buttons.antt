-- ===== src/Input/Buttons.antt =====
-- The tests for single buttons of src/helpers/InputHelper.h, and the names of the controllers' styles of
-- InputHelper.cpp.
use zeldar.Base.{ℕ, Bool, Option, none, some, List, [], ◌∷◌, if◌then◌else◌}
use zeldar.Input.{InputHelper, is_bit_set, is_button_hold, is_button_press, is_button_release}

-- The buttons that have tests of their own.
pub data NpadButton : Type 0 where
  a b x y l r zl zr left right up down stick_l stick_r : NpadButton

-- Their bits.
unfoldable pub button_bit : NpadButton → ℕ
button_bit button = elim button [
  | NpadButton.a ↦ 0
  | NpadButton.b ↦ 1
  | NpadButton.x ↦ 2
  | NpadButton.y ↦ 3
  | NpadButton.stick_l ↦ 4
  | NpadButton.stick_r ↦ 5
  | NpadButton.l ↦ 6
  | NpadButton.r ↦ 7
  | NpadButton.zl ↦ 8
  | NpadButton.zr ↦ 9
  | NpadButton.left ↦ 12
  | NpadButton.up ↦ 13
  | NpadButton.right ↦ 14
  | NpadButton.down ↦ 15
]

-- `isHoldA` and so on, one function for each kind of test.
unfoldable pub is_hold : NpadButton → InputHelper → Bool
unfolding button_bit is_button_hold
is_hold button i = is_button_hold (button_bit button) i

unfoldable pub is_press : NpadButton → InputHelper → Bool
unfolding button_bit is_button_press
is_press button i = is_button_press (button_bit button) i

unfoldable pub is_release : NpadButton → InputHelper → Bool
unfolding button_bit is_button_release
is_release button i = is_button_release (button_bit button) i

-- The tags of the styles in the order of their tests, each with its index in `styleNames`.
abbrev pub style_tags : List (ℕ × ℕ)
style_tags =
    (0, 0)
    ∷ (1, 1)
    ∷ (2, 2)
    ∷ (3, 3)
    ∷ (4, 4)
    ∷ (5, 5)
    ∷ (6, 6)
    ∷ (7, 7)
    ∷ (8, 8)
    ∷ (9, 9)
    ∷ (10, 10)
    ∷ (11, 11)
    ∷ (29, 12)
    ∷ (30, 13)
    ∷ []

unfoldable pub last_style : List (ℕ × ℕ) → List ℕ → Option ℕ → Option ℕ
unfolding is_bit_set
last_style [] style index = index
last_style ((tag, i) ∷ tags) style index =
    last_style tags style (if is_bit_set 32 style tag then some i else index)

-- `getStyleName`: the index of the name, or `none` for "Unknown".
unfoldable pub get_style_name : List ℕ → Option ℕ
unfolding last_style
get_style_name style = last_style style_tags style none
