-- ===== src/Agent/Prepared/Preparation.antt =====
-- Preparing executors: all of them are prepared, or every provider that was made is closed again.
use mathlib.Core.List.{reverse}
use onprest.Prelude.{
  ◌≡◌, refl, sym, ap, ◌∙◌, Bool, true, false, ◌&&◌, List, [], ◌∷◌, ◌++◌, append_assoc, append-nil,
  Option, none, some, String,
}
use onprest.Agent.Prepared.{
  PrepareError, preparation_failed, no_provider, because, Prepared, Attempt, unresolved, attempted,
  close_start, close_providers, empty_prepared, give_up, or_stop, prepare_one, prepare_all,
}

-- A capability is prepared where its factory gives a provider without an error, and the context has
-- not ended.
abbrev pub is_fine : {E : Type 0} → Attempt E → Option E → Bool
is_fine (attempted true false) none = true
is_fine _ _ = false

-- The provider that an attempt makes, also one that comes with an error.
abbrev pub made : {E : Type 0} → Attempt E → String → List String
made (unresolved e) name = []
made (attempted false failed) name = []
made (attempted true failed) name = name ∷ []

module _ {E : Type 0} (attempt : String → Attempt E) (ended : String → Option E) where
  abbrev pub all_fine : List String → Bool
  all_fine [] = true
  all_fine (name ∷ names) = is_fine (attempt name) (ended name) && all_fine names

  -- Where a preparation stops: `at` is the first capability that is not prepared.
  pub record Stop (order names closed : List String) : Type 0 where
    pub before : List String
    pub at : String
    pub after : List String
    pub found : names ≡ before ++ at ∷ after
    pub fine_before : all_fine before ≡ true
    pub not_fine : is_fine (attempt at) (ended at) ≡ false
    pub all_closed : closed ≡ reverse ((order ++ before) ++ made (attempt at) at)

  -- How a preparation of `names` ends, with the providers `order` made before.
  abbrev pub Ends : List String → List String → Prepared × Option (PrepareError E) → Type 0
  Ends order names (p, none) = (all_fine names ≡ true) × (p ≡ empty_prepared (order ++ names))
  Ends order names (p, some e) = Stop order names p.closed

  -- The first capability of all stops the preparation.
  stops :
      (clean : Bool) (order order' : List String) (name : String) (rest : List String)
      (e : PrepareError E)
      → is_fine (attempt name) (ended name) ≡ false
      → order' ≡ order ++ made (attempt name) name
      → Ends order (name ∷ rest) (give_up clean order' e)
  unfolding give_up close_start close_providers
  stops clean order order' name rest e bad made_here = record {
    before = [];
    at = name;
    after = rest;
    found = refl;
    fine_before = refl;
    not_fine = bad;
    all_closed =
        ap reverse (made_here ∙ ap (λ l. l ++ made (attempt name) name) (sym (append-nil order)));
  }

  -- A later one does.
  goes_on :
      (order : List String) (name : String) (rest : List String)
      (r : Prepared × Option (PrepareError E))
      → is_fine (attempt name) (ended name) ≡ true
      → Ends (order ++ name ∷ []) rest r
      → Ends order (name ∷ rest) r
  goes_on order name rest (p, none) fine (all, is) =
      (rw (fine, all) refl, is ∙ ap empty_prepared (append_assoc order (name ∷ []) rest))
  goes_on order name rest (p, some e) fine s = record {
    before = name ∷ s.before;
    at = s.at;
    after = s.after;
    found = ap (λ l. name ∷ l) s.found;
    fine_before = rw (fine, s.fine_before) refl;
    not_fine = s.not_fine;
    all_closed =
        s.all_closed
        ∙ ap (λ l. reverse (l ++ made (attempt s.at) s.at))
            (append_assoc order (name ∷ []) s.before);
  }

  prepare_one-Ends :
      (clean : Bool) (order : List String) (name : String) (rest : List String) (a : Attempt E)
      (end : Option E) (onward : Prepared × Option (PrepareError E))
      → attempt name ≡ a
      → ended name ≡ end
      → Ends (order ++ name ∷ []) rest onward
      → Ends order (name ∷ rest) (prepare_one clean order name end a onward)
  unfolding prepare_one or_stop
  prepare_one-Ends clean order name rest (unresolved e) end onward is over h =
      stops clean order order name rest (because e) (rw is refl) (rw is (sym (append-nil order)))
  prepare_one-Ends clean order name rest (attempted false true) end onward is over h =
      stops clean order order name rest preparation_failed (rw is refl)
        (rw is (sym (append-nil order)))
  prepare_one-Ends clean order name rest (attempted false false) end onward is over h =
      stops clean order order name rest no_provider (rw is refl) (rw is (sym (append-nil order)))
  prepare_one-Ends clean order name rest (attempted true true) end onward is over h =
      stops clean order (order ++ name ∷ []) name rest preparation_failed (rw is refl) (rw is refl)
  prepare_one-Ends clean order name rest (attempted true false) (some e) onward is over h =
      stops clean order (order ++ name ∷ []) name rest (because e) (rw (is, over) refl) (rw is refl)
  prepare_one-Ends clean order name rest (attempted true false) none onward is over h =
      goes_on order name rest onward (rw (is, over) refl) h

  -- The loop of Prepare ends with all the capabilities prepared in their order, each of which gave
  -- a provider without an error or an end of the context; or it stops with an error at the first
  -- that does not, and closes every provider that was made until then, the last one first, also one
  -- that came with that error.
  pub prepare_all-Ends :
      (clean : Bool) (order names : List String)
      → Ends order names (prepare_all clean attempt ended order names)
  unfolding prepare_all
  prepare_all-Ends clean order [] = (refl, ap empty_prepared (sym (append-nil order)))
  prepare_all-Ends clean order (name ∷ rest) =
      prepare_one-Ends clean order name rest (attempt name) (ended name)
        (prepare_all clean attempt ended (order ++ name ∷ []) rest) refl refl
        (prepare_all-Ends clean (order ++ name ∷ []) rest)
