-- ===== src/Runtime/Exit.antt =====
-- `__cxa_atexit` and `__cxa_finalize` of src/kernel/cxx_base_abi.cpp keep a list of destructors.
use closure_os.Base.{
  ℕ, zero, suc, ◌<◌, ◌≡◌, ◌≢◌, refl, sym, ap, ◌∙◌, fun_ext, true, false, ◌||◌, Option, none, some,
  List, [], ◌∷◌, length, All, ◌==◌, Bool-cases, ◌⊎◌, inl, inr, arith,
}
use closure_os.Atomic.{try_lock, unlock, atomic_compare_and_swap, atomic_set}
use closure_os.BootMem.{enomem}
use closure_os.Kernel.{Kernel, Cmd, Run, ok, pure, and_then, update}
use closure_os.HeapPool.{KHeapPool}
use closure_os.Runtime.{
  DtorInfo, Dtors, sizeof_dtor_info, operator_new, operator_delete, get_link, set_link, is_selected,
  finalize_loop, cxa_finalize, cxa_atexit,
}
use closure_os.Runtime.Finalize.{
  Entry, IsDtors, IsFreeOf, IsDistinct, selects, remaining, exit_all, IsDtors-frame, and_then_assoc,
  IsBefore, Finalized,
}
use closure_os.Runtime.Loop.{
  Finalized-end, Finalized-skip, Finalized-take, unlinked-IsDtors, IsBefore-tail,
}

module _ (call : (destructor arg : ℕ) → Cmd (Unit {0})) (dso_handle : ℕ) where
  -- The run of the loop at `pdtor`.
  abbrev Loops : (fuel : ℕ) (pdtor : Option ℕ) (es : List Entry) → Dtors → Type 0
  Loops fuel pdtor es d =
      (after : Dtors) × Finalized dso_handle pdtor es d after
      × ((s : Kernel)
          → finalize_loop call fuel dso_handle pdtor d s
            ≡ and_then (exit_all call dso_handle es s) (λ _. pure after))

  finalize_loop_lem :
      (es : List Entry) (fuel : ℕ) (pdtor : Option ℕ) (d : Dtors)
      → length es < fuel
      → IsDtors d.node (get_link pdtor d) es
      → IsBefore pdtor es
      → IsDistinct es
      → Loops fuel pdtor es d
  unfolding finalize_loop exit_all
  finalize_loop_lem es zero pdtor d enough list before distinct = absurd (omega arith)
  finalize_loop_lem [] (suc fuel) pdtor d enough list before distinct =
      let test : (get_link pdtor d == 0) ≡ true = ground arith in
      (d, Finalized-end dso_handle pdtor d list, λ s. rw test refl)
  finalize_loop_lem (e ∷ es) (suc fuel) pdtor d enough (here, present, holds, rest) before
        distinct =
      let (before', apart) = IsBefore-tail pdtor e es before in
      let there : (e.at == 0) ≡ false = ground arith in
      let same : is_selected dso_handle (d.node e.at) ≡ selects dso_handle e =
        ap (λ (h : ℕ). (dso_handle == 0) || (h == dso_handle)) holds.2 in
      elim (Bool-cases (selects dso_handle e)) [
        | inr stays ↦
            let (after, f, run) =
              finalize_loop_lem es fuel (some e.at) d (omega arith) rest distinct.0 distinct.1 in
            (
              after,
              Finalized-skip dso_handle pdtor e es d here present holds rest before distinct after
                  stays f,
              λ s. rw (here, there, same ∙ stays, stays) (run s),
            )
        | inl goes ↦
            let list' =
              unlinked-IsDtors dso_handle pdtor e es d here present holds rest before distinct in
            let (after, f, run) =
              finalize_loop_lem es fuel pdtor (set_link pdtor (d.node e.at).next d) (omega arith)
                list' before' distinct.1 in
            (
              after,
              Finalized-take dso_handle pdtor e es d here present holds rest before distinct after
                  goes f,
              λ s.
                  rw (here, there, same ∙ goes, goes, holds.0, holds.1)
                    (ap
                        (λ (k : Cmd Dtors).
                          and_then
                            (and_then (call e.destructor e.arg s) (λ _. operator_delete e.at))
                            (λ _. k))
                        (fun_ext run)
                      ∙ sym (
                          and_then_assoc {A = Unit {0}} {B = Unit {0}}
                            (and_then (call e.destructor e.arg s) (λ _. operator_delete e.at))
                            (λ _. exit_all call dso_handle es) (λ _. pure after))),
            )
      ]

  -- The code of the destructors being a parameter that does not use the list, and with fuel for its
  -- entries and one more, `__cxa_finalize` on a list in order with its lock free runs, in the order of
  -- the list, the destructor and then the delete of each entry that is of the handle, or of all entries
  -- for the handle 0; it ends as these do. Where they all return, the list that it leaves holds the
  -- other entries in their order, and the lock is free.
  pub cxa_finalize_lem :
      (es : List Entry) (fuel : ℕ) (d : Dtors)
      → length es < fuel
      → IsDtors d.node d.global_dtors es
      → IsDistinct es
      → d.dtor_exit_lock ≡ 0
      → (after : Dtors) × IsDtors after.node after.global_dtors (remaining dso_handle es)
        × (after.dtor_exit_lock ≡ 0)
        × ((s : Kernel)
            → cxa_finalize call fuel dso_handle d s
              ≡ and_then (exit_all call dso_handle es s) (λ _. pure after))
  unfolding cxa_finalize try_lock unlock atomic_compare_and_swap atomic_set
  cxa_finalize_lem es fuel d enough list distinct free =
      let (after, f, run) =
        finalize_loop_lem es fuel none (record d { dtor_exit_lock = 1 }) enough list tt distinct in
      (
        record after { dtor_exit_lock = 0 },
        f.list,
        refl,
        λ s. rw free (
            ap (λ (r : Run Dtors). and_then r (λ d'. pure (record d' { dtor_exit_lock = 0 })))
              (run s)
            ∙ and_then_assoc {A = Unit {0}} {B = Dtors} (exit_all call dso_handle es s)
                (λ _. pure after) (λ d'. pure (record d' { dtor_exit_lock = 0 }))),
      )

-- A new node in front of the list.
abbrev with_node : (new_info destructor arg dso_handle : ℕ) → Dtors → Dtors
with_node new_info destructor arg dso_handle d =
    let info : DtorInfo = record {
      next = d.global_dtors;
      destructor = destructor;
      arg = arg;
      dso_handle = dso_handle;
    } in
    record d { node = update d.node new_info info; global_dtors = new_info }

update-others :
    (node : ℕ → DtorInfo) (p : ℕ) (info : DtorInfo) (es : List Entry)
    → IsFreeOf p es
    → All (λ e. update node p info e.at ≡ node e.at) es
update-others node p info [] free = tt
update-others node p info (e ∷ es) (ne, free) =
    let test : (p == e.at) ≡ false = ground arith in
    (rw test refl, update-others node p info es free)

with_node-IsDtors :
    (new_info destructor arg dso_handle : ℕ) (es : List Entry) (d : Dtors)
    → new_info ≢ 0
    → IsDtors d.node d.global_dtors es
    → IsFreeOf new_info es
    → IsDtors
        (with_node new_info destructor arg dso_handle d).node
        new_info
        (record { at = new_info; destructor = destructor; arg = arg; dso_handle = dso_handle } ∷ es)
with_node-IsDtors new_info destructor arg dso_handle es d ne list free =
    let same : (new_info == new_info) ≡ true = ground arith in
    (
      refl,
      ne,
      rw same (refl, refl, refl),
      rw same
          (IsDtors-frame d.node _ d.global_dtors es list (update-others d.node new_info _ es free)),
    )

-- A destructor is put in front of the others: `__cxa_atexit` on a list in order, when the heap has given
-- an object that is no entry. When it has none left, the result is `-ENOMEM` and nothing changes.
pub cxa_atexit_lem :
    (fuel : ℕ) (heap : KHeapPool) (destructor arg dso_handle : ℕ) (es : List Entry) (d : Dtors)
    (s s' : Kernel) (new_info : ℕ)
    → IsDtors d.node d.global_dtors es
    → IsDistinct es
    → IsFreeOf new_info es
    → operator_new fuel heap sizeof_dtor_info s ≡ ok new_info s'
    → ((new_info ≡ 0) × (cxa_atexit fuel heap destructor arg dso_handle d s ≡ ok (enomem, d) s'))
      ⊎ ((after : Dtors) × (cxa_atexit fuel heap destructor arg dso_handle d s ≡ ok (0, after) s')
          × IsDtors after.node after.global_dtors (
              record { at = new_info; destructor = destructor; arg = arg; dso_handle = dso_handle }
              ∷ es)
          × (after.dtor_exit_lock ≡ d.dtor_exit_lock))
unfolding cxa_atexit
cxa_atexit_lem fuel heap destructor arg dso_handle es d s s' new_info list distinct free run =
    elim (Bool-cases (new_info == 0)) [
      | inl none_left ↦ inl (ground arith, rw (run, none_left) refl)
      | inr there ↦
          let ne : new_info ≢ 0 = ground arith in
          inr (
            with_node new_info destructor arg dso_handle d,
            rw (run, there) refl,
            with_node-IsDtors new_info destructor arg dso_handle es d ne list free,
            refl,
          )
    ]
