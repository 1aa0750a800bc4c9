-- ===== src/MemLayout/Walk.antt =====
-- What `FindModules` of src/lib/util/sys/mem_layout.cpp finds: the state machine against a reading of
-- the regions with a lookahead of three.
use zeldar.Base.{
  ℕ, ◌+◌, ◌≡◌, inl, inr, refl, sym, ◌∙◌, true, false, Option, none, some, List, [], ◌∷◌, ◌++◌,
  length, ◌==◌, if◌then◌else◌, sub64, Bool-cases,
}
use mathlib.Core.List.{append-nil, append_assoc}
use zeldar.MemLayout.{
  Range, ModuleInfo, Region, State, Scan, empty_info, empty_range, get_end, is_text, is_rodata,
  is_data, step, switch_state, store_text, store_rodata, store_module, reset, start_scan,
}

unfoldable pub range_of : Region → Range
range_of r = record { start = r.addr; size = r.size }

-- The module whose parts are three regions.
unfoldable pub module_of : Region → Region → Region → ModuleInfo
unfolding range_of get_end
module_of t r d = record {
  total = record { start = t.addr; size = sub64 (get_end (range_of d)) t.addr };
  text = range_of t;
  rodata = range_of r;
  data_range = range_of d;
}

-- Reading the regions from the left: at a text region the next one has to be rodata and the one after
-- it data, and a region that breaks this is read over.
unfoldable pub parse : List Region → List ModuleInfo
parse [] = []
parse (t ∷ []) = []
parse (t ∷ r ∷ []) = []
parse (t ∷ r ∷ d ∷ rest) =
    let from_r = parse (r ∷ d ∷ rest) in
    let from_d = parse (d ∷ rest) in
    let from_rest = parse rest in
    if is_text t
    then (if is_rodata r
        then (if is_data d then module_of t r d ∷ from_rest else from_rest)
        else from_d)
    else from_r

-- The rounds over the regions of a list.
unfoldable pub scan : ℕ → List Region → Scan → Scan
scan module_start [] s = s
scan module_start (r ∷ rs) s = scan module_start rs (step module_start r s)

-- What the state machine has read of the module that it is in.
pub data Stage : Type 0 where
  no_part : Stage
  text_read : Region → Stage
  rodata_read : Region → Region → Stage

unfoldable pub scan_at : Stage → List ModuleInfo → Option ℕ → Option ℕ → Scan
unfolding range_of
scan_at no_part infos count idx = record {
  state = State.looking_for_code_static;
  cur_mod_info = empty_info;
  infos = infos;
  module_count = count;
  self_module_idx = idx;
}
scan_at (text_read t) infos count idx = record {
  state = State.expecting_rodata;
  cur_mod_info = record {
    total = record { start = t.addr; size = 0 };
    text = range_of t;
    rodata = empty_range;
    data_range = empty_range;
  };
  infos = infos;
  module_count = count;
  self_module_idx = idx;
}
scan_at (rodata_read t r) infos count idx = record {
  state = State.expecting_data;
  cur_mod_info = record {
    total = record { start = t.addr; size = 0 };
    text = range_of t;
    rodata = range_of r;
    data_range = empty_range;
  };
  infos = infos;
  module_count = count;
  self_module_idx = idx;
}

unfoldable pub IsStage : Stage → Type 0
IsStage no_part = Unit
IsStage (text_read t) = is_text t ≡ true
IsStage (rodata_read t r) = (is_text t ≡ true) × (is_rodata r ≡ true)

-- The regions of a stage, in front of the others.
unfoldable pub with_stage : Stage → List Region → List Region
with_stage no_part rs = rs
with_stage (text_read t) rs = t ∷ rs
with_stage (rodata_read t r) rs = t ∷ r ∷ rs

parse_no_text : (t : Region) (rs : List Region) → is_text t ≡ false → parse (t ∷ rs) ≡ parse rs
unfolding parse
parse_no_text t [] h = refl
parse_no_text t (r ∷ []) h = refl
parse_no_text t (r ∷ d ∷ rest) h = rw h refl

parse_no_rodata :
    (t r : Region) (rs : List Region)
    → is_text t ≡ true
    → is_rodata r ≡ false
    → parse (t ∷ r ∷ rs) ≡ parse rs
unfolding parse
parse_no_rodata t r [] h k = refl
parse_no_rodata t r (d ∷ rest) h k = rw (h, k) refl

parse_no_data :
    (t r d : Region) (rs : List Region)
    → is_text t ≡ true
    → is_rodata r ≡ true
    → is_data d ≡ false
    → parse (t ∷ r ∷ d ∷ rs) ≡ parse rs
unfolding parse
parse_no_data t r d rs h k l = rw (h, k, l) refl

parse_module :
    (t r d : Region) (rs : List Region)
    → is_text t ≡ true
    → is_rodata r ≡ true
    → is_data d ≡ true
    → parse (t ∷ r ∷ d ∷ rs) ≡ module_of t r d ∷ parse rs
unfolding parse
parse_module t r d rs h k l = rw (h, k, l) refl

module _ (module_start : ℕ) where
  -- A round at each stage, by the kind of the region.
  step-no_part :
      (r : Region) (infos : List ModuleInfo) (count idx : Option ℕ)
      → step module_start r (scan_at no_part infos count idx) ≡ (
          if is_text r
          then scan_at (text_read r) infos count idx
          else scan_at no_part infos count idx)
  unfolding step switch_state store_text scan_at range_of
  step-no_part r infos count idx = refl

  step-text_read :
      (t r : Region) (infos : List ModuleInfo) (count idx : Option ℕ)
      → step module_start r (scan_at (text_read t) infos count idx) ≡ (
          if is_rodata r
          then scan_at (rodata_read t r) infos count idx
          else scan_at no_part infos count idx)
  unfolding step switch_state store_rodata reset scan_at range_of
  step-text_read t r infos count idx = refl

  step-rodata_read :
      (t r d : Region) (infos : List ModuleInfo) (count idx : Option ℕ)
      → step module_start d (scan_at (rodata_read t r) infos count idx) ≡ (
          if is_data d
          then scan_at no_part
              (infos ++ module_of t r d ∷ [])
              (some (length infos + 1))
              (if t.addr == module_start then some (length infos) else idx)
          else scan_at no_part infos count idx)
  unfolding step switch_state store_module reset scan_at range_of module_of get_end
  step-rodata_read t r d infos count idx = refl

  pub scan-cons :
      (r : Region) (rs : List Region) (s : Scan)
      → scan module_start (r ∷ rs) s ≡ scan module_start rs (step module_start r s)
  unfolding scan
  scan-cons r rs s = refl

  scan_at-nil :
      (stage : Stage) (infos : List ModuleInfo) (count idx : Option ℕ)
      → (scan module_start [] (scan_at stage infos count idx)).infos
        ≡ infos ++ parse (with_stage stage [])
  unfolding scan scan_at parse with_stage
  scan_at-nil no_part infos count idx = sym (append-nil infos)
  scan_at-nil (text_read t) infos count idx = sym (append-nil infos)
  scan_at-nil (rodata_read t r) infos count idx = sym (append-nil infos)

  pub scan_at-parse :
      (rs : List Region) (stage : Stage) (infos : List ModuleInfo) (count idx : Option ℕ)
      → IsStage stage
      → (scan module_start rs (scan_at stage infos count idx)).infos
        ≡ infos ++ parse (with_stage stage rs)
  unfolding with_stage IsStage
  scan_at-parse [] stage infos count idx h = scan_at-nil stage infos count idx
  scan_at-parse (r ∷ rs) no_part infos count idx h =
      rw (scan-cons r rs (scan_at no_part infos count idx), step-no_part r infos count idx)
        (elim (Bool-cases (is_text r)) [
          | inl e ↦ rw e (scan_at-parse rs (text_read r) infos count idx e)
          | inr e ↦ rw (e, parse_no_text r rs e) (scan_at-parse rs no_part infos count idx tt)
        ])
  scan_at-parse (r ∷ rs) (text_read t) infos count idx h =
      rw
        (scan-cons r rs (scan_at (text_read t) infos count idx), step-text_read t r infos count idx)
        (elim (Bool-cases (is_rodata r)) [
          | inl e ↦ rw e (scan_at-parse rs (rodata_read t r) infos count idx (h, e))
          | inr e ↦ rw (e, parse_no_rodata t r rs h e) (scan_at-parse rs no_part infos count idx tt)
        ])
  scan_at-parse (d ∷ rs) (rodata_read t r) infos count idx (h, k) =
      rw
        (
          scan-cons d rs (scan_at (rodata_read t r) infos count idx),
          step-rodata_read t r d infos count idx,
        )
        (elim (Bool-cases (is_data d)) [
          | inl e ↦
              rw (e, parse_module t r d rs h k e)
                (scan_at-parse rs no_part (infos ++ module_of t r d ∷ []) (some (length infos + 1))
                    (if t.addr == module_start then some (length infos) else idx) tt
                  ∙ append_assoc infos (module_of t r d ∷ []) (parse rs))
          | inr e ↦
              rw (e, parse_no_data t r d rs h k e) (scan_at-parse rs no_part infos count idx tt)
        ])

  pub start_scan-parse : (rs : List Region) → (scan module_start rs start_scan).infos ≡ parse rs
  unfolding scan_at with_stage IsStage
  start_scan-parse rs = scan_at-parse rs no_part [] none none tt
