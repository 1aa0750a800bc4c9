-- ===== src/MemLayout/Tests.antt =====
-- The scan of src/lib/util/sys/mem_layout.cpp over a small address space: a text region with nothing
-- after it, then our own module.
use zeldar.Base.{
  ℕ, ◌-◌, ◌^◌, ◌≤◌, ◌<◌, ◌≡◌, ◌⊎◌, refl, arith, true, List, [], ◌∷◌, ltb, length, get_or,
  if◌then◌else◌, ok, aborted, assertion, ◌%◌, some,
}
use zeldar.Virtmem.{Reply, value, failed, MemRegion, legacy_regions, weird_kernel}
use zeldar.MemLayout.{
  Range, infer_aslr_and_stack, Region, Scan, is_text, is_rodata, is_data, empty_info, no_region,
  find_modules, get_module_info, get_self_start, get_sdk_module_info,
}
use zeldar.MemLayout.Walk.{parse, module_of}
use zeldar.MemLayout.Loop.{IsWalk, wrapped, walked, has_module}
use zeldar.MemLayout.Ranges.{HasEndAsSize, infer_aslr_and_stack-legacy_regions}
use zeldar.MemLayout.Found.{
  IsFound, find_modules-parse, find_modules-IsFound, get_module_info-IsFound,
}

abbrev region : ℕ → ℕ → ℕ → ℕ → Region
region addr size mem_type perm = record {
  addr = addr;
  size = size;
  mem_type = mem_type;
  perm = perm;
}

abbrev first_free : Region
first_free = region 0 0x1000 0 0

abbrev lone_text : Region
lone_text = region 0x1000 0x1000 3 5

abbrev gap : Region
gap = region 0x2000 0x1000 0 0

abbrev own_text : Region
own_text = region 0x3000 0x1000 3 5

abbrev own_rodata : Region
own_rodata = region 0x4000 0x1000 3 1

abbrev own_data : Region
own_data = region 0x5000 0x1000 0x104 3

abbrev last_free : Region
last_free = region 0x6000 (2 ^ 64 - 0x6000) 0 0

abbrev small_space : ℕ → Reply Region
small_space a =
    if ltb a 0x1000
    then value first_free
    else if ltb a 0x2000
    then value lone_text
    else if ltb a 0x3000
    then value gap
    else if ltb a 0x4000
    then value own_text
    else if ltb a 0x5000
    then value own_rodata
    else if ltb a 0x6000
    then value own_data
    else value last_free

abbrev answers : List Region
answers =
    first_free ∷ lone_text ∷ gap ∷ own_text ∷ own_rodata ∷ own_data ∷ last_free ∷ first_free ∷ []

answers-IsWalk : IsWalk small_space no_region answers
answers-IsWalk = walked refl (omega arith) (
    walked refl (omega arith) (
      walked refl (omega arith) (
        walked refl (omega arith) (
          walked refl (omega arith)
            (walked refl (omega arith) (walked refl (omega arith) (wrapped refl (omega arith))))))))

answers-parse : parse answers ≡ module_of own_text own_rodata own_data ∷ []
unfolding parse is_text is_rodata is_data
answers-parse = refl

own_module : has_module 0x3000 (parse answers) ≡ true
unfolding has_module module_of
own_module = rw answers-parse refl

few_modules : length (parse answers) < 13
few_modules = rw answers-parse (omega arith)

find_modules-parse_example :
    (s : Scan) × (find_modules small_space 0x3000 8 ≡ ok s) × IsFound 0x3000 answers s
find_modules-parse_example =
    find_modules-parse small_space 0x3000 8 answers answers-IsWalk (omega arith) few_modules
      own_module

abbrev found : (s : Scan) × (find_modules small_space 0x3000 8 ≡ ok s) × IsFound 0x3000 answers s
found =
    find_modules-parse small_space 0x3000 8 answers answers-IsWalk (omega arith) few_modules
      own_module

abbrev scanned : Scan
scanned = found.0

find_modules-IsFound_example :
    (rs : List Region) × IsWalk small_space no_region rs
    × IsFound 0x3000 rs scanned
    × (length scanned.infos ≤ 13)
find_modules-IsFound_example = find_modules-IsFound small_space 0x3000 8 scanned found.1

get_module_info-IsFound_example :
    (((1 < length (parse answers))
        × (get_module_info scanned (some 1) ≡ ok (get_or (parse answers) 1 empty_info)))
      ⊎ ((length (parse answers) ≤ 1) × (get_module_info scanned (some 1) ≡ assertion)))
    × (get_self_start scanned ≡ ok 0x3000)
    × (get_sdk_module_info scanned
        ≡ ok (get_or (parse answers) (length (parse answers) - 1) empty_info))
get_module_info-IsFound_example = get_module_info-IsFound 0x3000 answers scanned 1 found.2

infer_aslr_and_stack-legacy_regions_example :
    ((aslr : Range) × (stack : Range) × (aslr' : MemRegion) × (stack' : MemRegion)
      × (infer_aslr_and_stack 0xd401 ≡ value (aslr, stack))
      × (legacy_regions (0xd401 % 2 ^ 22) ≡ ok (aslr', stack'))
      × HasEndAsSize aslr aslr'
      × HasEndAsSize stack stack')
    ⊎ ((infer_aslr_and_stack 0xd401 ≡ failed weird_kernel)
        × (legacy_regions (0xd401 % 2 ^ 22) ≡ aborted weird_kernel))
infer_aslr_and_stack-legacy_regions_example = infer_aslr_and_stack-legacy_regions 0xd401
