-- ===== src/Runtime/Loop.antt =====
-- The loop of `__cxa_finalize` of src/kernel/cxx_base_abi.cpp.
use closure_os.Base.{
  ℕ, ◌≡◌, ◌≢◌, refl, sym, ap, ◌∙◌, true, false, Option, none, some, List, [], ◌∷◌, All, ◌==◌,
  Bool-cases, inl, inr, arith,
}
use mathlib.Core.Option.{none-ne-some, some-injective}
use closure_os.Kernel.{update_self}
use closure_os.Runtime.{DtorInfo, Dtors, get_link, set_link}
use closure_os.Runtime.Finalize.{
  Entry, Holds, IsDtors, IsDistinct, selects, remaining, IsDtors-frame, IsBefore, Finalized,
}

-- What a write to a link changes.
module _ (target : ℕ) (d : Dtors) where
  set_link-node :
      (pdtor : Option ℕ) (q : ℕ) → pdtor ≢ some q → (set_link pdtor target d).node q ≡ d.node q
  set_link-node none q ne = refl
  set_link-node (some p) q ne =
      let test : (p == q) ≡ false = ground (arith, λ (e : p ≡ q). ne (ap some e)) in rw test refl

  set_link-fields :
      (pdtor : Option ℕ) (q : ℕ) (e : Entry)
      → Holds (d.node q) e
      → Holds ((set_link pdtor target d).node q) e
  set_link-fields none q e h = h
  set_link-fields (some p) q e h = elim (Bool-cases (p == q)) [
    | inl same ↦ let eq : p ≡ q = ground arith in rw (same, eq) h
    | inr other ↦ rw other h
  ]

  set_link-get : (pdtor : Option ℕ) → get_link pdtor (set_link pdtor target d) ≡ target
  set_link-get none = refl
  set_link-get (some p) =
      ap (λ (i : DtorInfo). i.next) (update_self d.node p (record (d.node p) { next = target }))

  set_link-head :
      (pdtor : Option ℕ) → pdtor ≢ none → (set_link pdtor target d).global_dtors ≡ d.global_dtors
  set_link-head none ne = absurd (ne refl)
  set_link-head (some p) ne = refl

  set_link-lock : (pdtor : Option ℕ) → (set_link pdtor target d).dtor_exit_lock ≡ d.dtor_exit_lock
  set_link-lock none = refl
  set_link-lock (some p) = refl

  set_link-others :
      (pdtor : Option ℕ) (es : List Entry)
      → IsBefore pdtor es
      → All (λ e. (set_link pdtor target d).node e.at ≡ d.node e.at) es
  set_link-others none [] before = tt
  set_link-others none (e ∷ es) before = (refl, set_link-others none es tt)
  set_link-others (some p) [] before = tt
  set_link-others (some p) (e ∷ es) before = (
    set_link-node (some p) e.at (λ z. before.0 (some-injective _ _ z)),
    set_link-others (some p) es before.1,
  )

-- A link in front of the entries is as before.
get_link-same :
    (dso_handle p : ℕ) (pdtor : Option ℕ) (es : List Entry) (d after : Dtors)
    → IsBefore pdtor es
    → pdtor ≢ some p
    → Finalized dso_handle (some p) es d after
    → get_link pdtor after ≡ get_link pdtor d
get_link-same dso_handle p none es d after before ne f = f.head (λ z. none-ne-some _ (sym z))
get_link-same dso_handle p (some q) es d after before ne f =
    ap (λ (i : DtorInfo). i.next) (f.frame q (λ z. ne (sym z)) before)

pub IsBefore-tail :
    (pdtor : Option ℕ) (e : Entry) (es : List Entry)
    → IsBefore pdtor (e ∷ es)
    → IsBefore pdtor es × (pdtor ≢ some e.at)
IsBefore-tail none e es before = (tt, none-ne-some _)
IsBefore-tail (some p) e es before = (before.1, λ z. before.0 (some-injective _ _ z))

-- Nothing is left to be looked at.
pub Finalized-end :
    (dso_handle : ℕ) (pdtor : Option ℕ) (d : Dtors)
    → get_link pdtor d ≡ 0
    → Finalized dso_handle pdtor [] d d
unfolding remaining
Finalized-end dso_handle pdtor d at_end = record {
  list = at_end;
  frame = λ q apart free. refl;
  fields = λ q e holds. holds;
  head = λ ne. refl;
  lock = refl;
}

module _ (dso_handle : ℕ) (pdtor : Option ℕ) (e : Entry) (es : List Entry) (d : Dtors)
    (here : get_link pdtor d ≡ e.at) (present : e.at ≢ 0) (holds : Holds (d.node e.at) e)
    (rest : IsDtors d.node (d.node e.at).next es) (before : IsBefore pdtor (e ∷ es))
    (distinct : IsDistinct (e ∷ es)) where
  -- An entry that stays.
  pub Finalized-skip :
      (after : Dtors)
      → selects dso_handle e ≡ false
      → Finalized dso_handle (some e.at) es d after
      → Finalized dso_handle pdtor (e ∷ es) d after
  unfolding remaining
  Finalized-skip after stays f = record {
    list =
        let (before', apart) = IsBefore-tail pdtor e es before in
        rw stays (
          get_link-same dso_handle e.at pdtor es d after before' apart f ∙ here,
          present,
          f.fields e.at e holds,
          f.list,
        );
    frame = λ q apart free. f.frame q (λ z. free.0 (sym (some-injective _ _ z))) free.1;
    fields = f.fields;
    head = λ ne. f.head (λ z. none-ne-some _ (sym z));
    lock = f.lock;
  }

  abbrev pub unlinked : Dtors
  unlinked = set_link pdtor (d.node e.at).next d

  -- The list behind the entry that is taken out.
  pub unlinked-IsDtors : IsDtors unlinked.node (get_link pdtor unlinked) es
  unlinked-IsDtors =
      let before' = (IsBefore-tail pdtor e es before).0 in
      rw (set_link-get (d.node e.at).next d pdtor) (
        IsDtors-frame d.node unlinked.node _ es rest
          (set_link-others (d.node e.at).next d pdtor es before'))

  -- An entry that is taken out.
  pub Finalized-take :
      (after : Dtors)
      → selects dso_handle e ≡ true
      → Finalized dso_handle pdtor es unlinked after
      → Finalized dso_handle pdtor (e ∷ es) d after
  unfolding remaining
  Finalized-take after goes f = record {
    list = rw goes f.list;
    frame =
        λ q apart free. f.frame q apart free.1 ∙ set_link-node (d.node e.at).next d pdtor q apart;
    fields = λ q e' h. f.fields q e' (set_link-fields (d.node e.at).next d pdtor q e' h);
    head = λ ne. f.head ne ∙ set_link-head (d.node e.at).next d pdtor ne;
    lock = f.lock ∙ set_link-lock (d.node e.at).next d pdtor;
  }
