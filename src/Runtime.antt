-- ===== src/Runtime.antt =====
-- src/kernel/cxx_base_abi.cpp, the C++ runtime of the kernel, and src/kernel/main.cpp: the operators new
-- and delete, the destructors that `__cxa_atexit` registers, the global constructors and `main`.
pub mod Finalize
pub mod Loop
pub mod Exit
pub mod Constructors
use closure_os.Base.{
  ℕ, zero, suc, ◌+◌, ◌-◌, ◌*◌, ◌^◌, Bool, true, false, not, ◌&&◌, ◌||◌, Option, none, some, ◌==◌,
  ltb, leb, if◌then◌else◌,
}
use closure_os.Atomic.{try_lock, unlock}
use closure_os.Kernel.{Kernel, Cmd, Run, ok, stuck, pure, ◌>>=◌, ◌>>◌, update}
use closure_os.BootMem.{enomem}
use closure_os.HeapPool
use closure_os.HeapPool.{KHeapPool}
use closure_os.MmMain.{mm_core_init}

-- The operators new and new[]: `GloblKHeapPool->Malloc`
unfoldable pub operator_new : (fuel : ℕ) → KHeapPool → (sz : ℕ) → Cmd ℕ
operator_new fuel heap sz = HeapPool.malloc fuel heap sz

-- The operators delete and delete[], with a size and without: `GloblKHeapPool->Free`
unfoldable pub operator_delete : (p : ℕ) → Cmd (Unit {0})
operator_delete p = HeapPool.free p

-- `struct dtor_info`; pointers are addresses.
pub record DtorInfo : Type 0 where
  pub next : ℕ
  pub destructor : ℕ
  pub arg : ℕ
  pub dso_handle : ℕ

abbrev pub sizeof_dtor_info : ℕ
sizeof_dtor_info = 32

-- The objects of `struct dtor_info` at their addresses, and the variables `global_dtors` and
-- `dtor_exit_lock`.
pub record Dtors : Type 0 where
  pub node : ℕ → DtorInfo
  pub global_dtors : ℕ
  pub dtor_exit_lock : ℕ

-- `__cxa_atexit`, with the negative of its result.
unfoldable pub cxa_atexit :
    (fuel : ℕ) → KHeapPool → (destructor arg dso_handle : ℕ) → Dtors → Cmd (ℕ × Dtors)
cxa_atexit fuel heap destructor arg dso_handle d =
    operator_new fuel heap sizeof_dtor_info >>= λ new_info.
    (if new_info == 0
      then pure (enomem, d)
      else let info : DtorInfo = record {
        next = d.global_dtors;
        destructor = destructor;
        arg = arg;
        dso_handle = dso_handle;
      } in
        pure (0, record d { node = update d.node new_info info; global_dtors = new_info }))

-- What `pdtor` points to: the head of the list, or the link of a node.
abbrev pub get_link : (pdtor : Option ℕ) → Dtors → ℕ
get_link none d = d.global_dtors
get_link (some p) d = (d.node p).next

-- `*pdtor = target`
abbrev pub set_link : (pdtor : Option ℕ) → (target : ℕ) → Dtors → Dtors
set_link none target d = record d { global_dtors = target }
set_link (some p) target d = record d {
  node = update d.node p (record (d.node p) { next = target });
}

-- A node that `__cxa_finalize` takes out.
abbrev pub is_selected : (dso_handle : ℕ) → DtorInfo → Bool
is_selected dso_handle info = (dso_handle == 0) || (info.dso_handle == dso_handle)

-- `call` is the code of the destructors, which is not part of the kernel.
module _ (call : (destructor arg : ℕ) → Cmd (Unit {0})) where
  -- The loop of `__cxa_finalize` at `pdtor`; `stuck` also stands for want of fuel.
  unfoldable pub finalize_loop :
      (fuel : ℕ) → (dso_handle : ℕ) → (pdtor : Option ℕ) → Dtors → Cmd Dtors
  finalize_loop zero dso_handle pdtor d = λ s. stuck
  finalize_loop (suc fuel) dso_handle pdtor d =
      let dtor = get_link pdtor d in
      let info = d.node dtor in
      let rest = finalize_loop fuel dso_handle pdtor (set_link pdtor info.next d) in
      let skip = finalize_loop fuel dso_handle (some dtor) d in
      if dtor == 0
      then pure d
      else if is_selected dso_handle info
      then (call info.destructor info.arg >> operator_delete dtor >> rest)
      else skip

  -- `__cxa_finalize`, with no other processor to release the lock
  unfoldable pub cxa_finalize : (fuel : ℕ) → (dso_handle : ℕ) → Dtors → Cmd Dtors
  unfolding finalize_loop
  cxa_finalize fuel dso_handle d =
      let taken = try_lock d.dtor_exit_lock in
      let release =
        λ (d' : Dtors). record d' { dtor_exit_lock = (unlock d'.dtor_exit_lock).cell } in
      if taken.result
      then (finalize_loop fuel dso_handle none (record d { dtor_exit_lock = taken.cell }) >>= λ d'.
          pure (release d'))
      else (λ s. stuck)

-- `init` is the code of the constructors: each returns an `int`, here as a word of 32 bits.
module _ (init : (constructor_fn : ℕ) → Cmd ℕ) where
  -- The loop of `global_constructor_caller` from entry `i` on, with `rounds` entries left.
  unfoldable pub call_constructors : (rounds i : ℕ) → (init_array : ℕ → ℕ) → Cmd ℕ
  call_constructors zero i init_array = pure 0
  call_constructors (suc rounds) i init_array =
      let rest = call_constructors rounds (i + 1) init_array in
      if init_array i == 0
      then pure 0
      else (init (init_array i) >>= λ error. (if error == 0 then rest else pure error))

  -- `global_constructor_caller`, on an array of `nr` entries
  unfoldable pub global_constructor_caller : (nr : ℕ) → (init_array : ℕ → ℕ) → Cmd ℕ
  unfolding call_constructors
  global_constructor_caller nr init_array = call_constructors nr 0 init_array

  -- `main` up to its endless loop; `false` is for the message that the constructors failed.
  unfoldable pub main :
      (nr : ℕ) → (init_array : ℕ → ℕ) → (pgdb_page_nr pool : ℕ) → KHeapPool → Cmd (Bool × KHeapPool)
  unfolding global_constructor_caller
  main nr init_array pgdb_page_nr pool heap = do
    heap₁ ← mm_core_init pgdb_page_nr pool heap
    error ← global_constructor_caller nr init_array
    pure (ltb error (2 ^ 31), heap₁)
