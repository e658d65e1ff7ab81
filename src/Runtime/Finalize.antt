-- ===== src/Runtime/Finalize.antt =====
-- The list of `global_dtors`: `__cxa_atexit` and `__cxa_finalize` of src/kernel/cxx_base_abi.cpp against
-- a list of entries.
use closure_os.Base.{
  ℕ, ◌≡◌, ◌≢◌, refl, ap, ◌∙◌, Bool, ◌||◌, Option, none, some, List, [], ◌∷◌, All, ◌==◌,
  if◌then◌else◌,
}
use closure_os.Kernel.{Cmd, Run, ok, fault, stuck, pure, and_then, ◌>>◌}
use closure_os.Runtime.{DtorInfo, Dtors, operator_delete, get_link}

-- A destructor that waits: where its object is, and what was registered.
pub record Entry : Type 0 where
  pub at : ℕ
  pub destructor : ℕ
  pub arg : ℕ
  pub dso_handle : ℕ

abbrev pub Holds : DtorInfo → Entry → Type 0
Holds info e =
    (info.destructor ≡ e.destructor) × (info.arg ≡ e.arg) × (info.dso_handle ≡ e.dso_handle)

-- The list from `head` on holds the entries, in order.
abbrev pub IsDtors : (node : ℕ → DtorInfo) → (head : ℕ) → List Entry → Type 0
IsDtors node head [] = head ≡ 0
IsDtors node head (e ∷ es) =
    (head ≡ e.at) × (e.at ≢ 0) × Holds (node e.at) e × IsDtors node (node e.at).next es

abbrev pub IsFreeOf : ℕ → List Entry → Type 0
IsFreeOf p = All (λ e. p ≢ e.at)

-- No two entries stand at one address.
abbrev pub IsDistinct : List Entry → Type 0
IsDistinct [] = Unit
IsDistinct (e ∷ es) = IsFreeOf e.at es × IsDistinct es

abbrev pub selects : (dso_handle : ℕ) → Entry → Bool
selects dso_handle e = (dso_handle == 0) || (e.dso_handle == dso_handle)

-- The entries that are left behind `__cxa_finalize`.
unfoldable pub remaining : (dso_handle : ℕ) → List Entry → List Entry
remaining dso_handle [] = []
remaining dso_handle (e ∷ es) =
    let rest = remaining dso_handle es in if selects dso_handle e then rest else e ∷ rest

-- The destructors of the entries that it takes out, in order, each followed by the delete of its entry.
unfoldable pub exit_all :
    (call : (destructor arg : ℕ) → Cmd (Unit {0})) → (dso_handle : ℕ) → List Entry → Cmd (Unit {0})
exit_all call dso_handle [] = pure tt
exit_all call dso_handle (e ∷ es) =
    let rest = exit_all call dso_handle es in
    if selects dso_handle e then (call e.destructor e.arg >> operator_delete e.at >> rest) else rest

pub IsDtors-frame :
    (node node' : ℕ → DtorInfo) (head : ℕ) (es : List Entry)
    → IsDtors node head es
    → All (λ e. node' e.at ≡ node e.at) es
    → IsDtors node' head es
IsDtors-frame node node' head [] at_end same = at_end
IsDtors-frame node node' head (e ∷ es) (here, ne, holds, rest) (same, others) = (
  here,
  ne,
  (
    ap (λ (i : DtorInfo). i.destructor) same ∙ holds.0,
    ap (λ (i : DtorInfo). i.arg) same ∙ holds.1,
    ap (λ (i : DtorInfo). i.dso_handle) same ∙ holds.2,
  ),
  IsDtors-frame node node' _ es (rw same rest) others,
)

pub and_then_assoc :
    {A B C : Type 0} (m : Run A) (f : A → Cmd B) (g : B → Cmd C)
    → and_then (and_then m f) g ≡ and_then m (λ a s. and_then (f a s) g)
and_then_assoc (ok a s) f g = refl
and_then_assoc fault f g = refl
and_then_assoc stuck f g = refl

-- `pdtor` is not the link of an entry.
abbrev pub IsBefore : (pdtor : Option ℕ) → List Entry → Type 0
IsBefore none es = Unit
IsBefore (some p) es = IsFreeOf p es

-- What the loop at `pdtor` makes of `d`, whose list from there on is `es`.
pub record Finalized (dso_handle : ℕ) (pdtor : Option ℕ) (es : List Entry) (d after : Dtors)
    : Type 0 where
  pub list : IsDtors after.node (get_link pdtor after) (remaining dso_handle es)
  pub frame : (q : ℕ) → pdtor ≢ some q → IsFreeOf q es → after.node q ≡ d.node q
  pub fields : (q : ℕ) (e : Entry) → Holds (d.node q) e → Holds (after.node q) e
  pub head : pdtor ≢ none → after.global_dtors ≡ d.global_dtors
  pub lock : after.dtor_exit_lock ≡ d.dtor_exit_lock
