-- ===== src/Patch/Branches.antt =====
-- Where the branches that src/lib/patch/code_patcher.hpp writes go.
use zeldar.Base.{
  ℕ, ◌-◌, ◌≤◌, ◌<◌, ◌%◌, ◌^◌, ◌≡◌, ◌⊎◌, refl, ap, ◌∙◌, arith, some, [], ◌∷◌, add64, sub64, u32,
}
use zeldar.RwPages.{Claim}
use zeldar.Armv8.Encode.Branches.{branch, branch_link}
use zeldar.Armv8.Encode.Laws.Immediate.{branch_lem, branch_link_lem}
use zeldar.Hook.Encoded.{IsNear, branch-leaves, branch_link-calls}
use zeldar.Hook.Exec.{leaves, calls}
use zeldar.Patch.{
  Stream, ro_from_addr, addr_from_ro, relative_address_from_base, relative_address_from_pointer,
  branch_inst_rel, branch_link_inst_rel, branch_inst, branch_link_inst, branch_inst_pointer,
  branch_link_inst_pointer,
}
use zeldar.Patch.Written.{inst_at, write_inst-inst_at}

module _ (pages : Claim) where
  ro_from_addr_reach :
      (address current : ℕ)
      → current < 2 ^ 64
      → address < 2 ^ 64
      → add64 (ro_from_addr pages current) (sub64 address current) ≡ ro_from_addr pages address
  unfolding ro_from_addr
  ro_from_addr_reach address current h k = omega arith

  branch_inst-lands :
      (address : ℕ) (s : Stream)
      → s.current < 2 ^ 64
      → address < 2 ^ 64
      → IsNear (sub64 address s.current)
      → leaves
          (ro_from_addr pages s.current)
          (inst_at pages s.current (branch_inst pages address s).machine ∷ [])
        ≡ some (ro_from_addr pages address)
  unfolding branch_inst branch_inst_rel relative_address_from_base
  branch_inst-lands address s h k near =
      let word = branch (u32 (sub64 address s.current)) in
      rw
        (write_inst-inst_at pages word s
          (omega (arith, branch_lem (u32 (sub64 address s.current))))).0
        (branch-leaves (ro_from_addr pages s.current) (sub64 address s.current) near
          ∙ ap some (ro_from_addr_reach address s.current h k))

  branch_link_inst-calls :
      (address : ℕ) (s : Stream)
      → s.current < 2 ^ 64
      → address < 2 ^ 64
      → IsNear (sub64 address s.current)
      → calls
          (ro_from_addr pages s.current)
          (inst_at pages s.current (branch_link_inst pages address s).machine ∷ [])
        ≡ some (record {
          target = ro_from_addr pages address;
          link = ro_from_addr pages (add64 s.current 4);
        })
  unfolding branch_link_inst branch_link_inst_rel relative_address_from_base
  branch_link_inst-calls address s h k near =
      let word = branch_link (u32 (sub64 address s.current)) in
      let link : ro_from_addr pages (add64 s.current 4) ≡ add64 (ro_from_addr pages s.current) 4 =
        unfold ro_from_addr in omega arith in
      rw
        (
          (write_inst-inst_at pages word s
              (omega (arith, branch_link_lem (u32 (sub64 address s.current))))).0,
          link,
        )
        (branch_link-calls (ro_from_addr pages s.current) (sub64 address s.current) near
          ∙ ap (λ a. some (record { target = a; link = add64 (ro_from_addr pages s.current) 4 }))
              (ro_from_addr_reach address s.current h k))

  branch_inst_pointer_lem :
      (address : ℕ) (s : Stream)
      → address < 2 ^ 64
      → pages.ro < 2 ^ 64
      → let target = ro_from_addr pages address in
        (branch_inst_pointer pages target s ≡ branch_inst pages address s)
        × (branch_link_inst_pointer pages target s ≡ branch_link_inst pages address s)
  unfolding branch_inst_pointer branch_link_inst_pointer branch_inst branch_link_inst
      relative_address_from_base relative_address_from_pointer addr_from_ro ro_from_addr
  branch_inst_pointer_lem address s k base =
      let same : sub64 (add64 pages.ro address) pages.ro ≡ address = omega arith in
      (rw same refl, rw same refl)

  -- The branches to an address of the pages, given as an offset or as a pointer, go there from where
  -- the instruction is fetched.
  pub branch_inst-leaves :
      (address : ℕ) (s : Stream)
      → s.current < 2 ^ 64
      → address < 2 ^ 64
      → pages.ro < 2 ^ 64
      → sub64 address s.current % 4 ≡ 0
      → (sub64 address s.current < 2 ^ 27) ⊎ (2 ^ 64 - 2 ^ 27 ≤ sub64 address s.current)
      → let at = ro_from_addr pages s.current in
        let target = ro_from_addr pages address in
        (leaves at (inst_at pages s.current (branch_inst pages address s).machine ∷ [])
          ≡ some target)
        × (calls at (inst_at pages s.current (branch_link_inst pages address s).machine ∷ [])
            ≡ some (record { target = target; link = ro_from_addr pages (add64 s.current 4) }))
        × (branch_inst_pointer pages target s ≡ branch_inst pages address s)
        × (branch_link_inst_pointer pages target s ≡ branch_link_inst pages address s)
  branch_inst-leaves address s h k base align near =
      let (b, bl) = branch_inst_pointer_lem address s k base in
      (
        branch_inst-lands address s h k (align, omega arith),
        branch_link_inst-calls address s h k (align, omega arith),
        b,
        bl,
      )
