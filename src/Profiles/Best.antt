-- ===== src/Profiles/Best.antt =====
-- The order of candidates, and the model that comes first.
use agent_ui.Prelude.{
  ℕ, String, Bool, true, false, List, [], ◌∷◌, none, some, ◌≡◌, refl, arith, string_eq, eq_iff,
  Option-cases, Bool-cases, inl, inr, if◌then◌else◌, select, ok, sym, subst, ◌∙◌,
}
use agent_ui.Prelude.Dict.{Dict, get, IsDict}
use agent_ui.Prelude.Text.{codes}
use agent_ui.Catalog.{ModelSpec, Profile, ProfileDocument, truthy_text}
use agent_ui.Profiles.{
  Entry, codes_leb, precedes, insert_entry, sort_entries, first, is_candidate, candidates,
  select_model, highest_priority,
}

codes_leb-total : (xs ys : List ℕ) → codes_leb xs ys ≡ false → codes_leb ys xs ≡ true
unfolding codes_leb
codes_leb-total [] ys h = ground arith
codes_leb-total (x ∷ xs) [] h = refl
codes_leb-total (x ∷ xs) (y ∷ ys) h = ground (arith, codes_leb-total xs ys)

codes_leb_trans :
    (xs ys zs : List ℕ) → codes_leb xs ys ≡ true → codes_leb ys zs ≡ true → codes_leb xs zs ≡ true
unfolding codes_leb
codes_leb_trans [] ys zs h k = refl
codes_leb_trans (x ∷ xs) [] zs h k = ground arith
codes_leb_trans (x ∷ xs) (y ∷ ys) [] h k = ground arith
codes_leb_trans (x ∷ xs) (y ∷ ys) (z ∷ zs) h k = ground (arith, codes_leb_trans xs ys zs)

codes_leb_self : (xs : List ℕ) → codes_leb xs xs ≡ true
unfolding codes_leb
codes_leb_self [] = refl
codes_leb_self (x ∷ xs) = ground (arith, codes_leb_self xs)

precedes_total : (a b : Entry) → precedes a b ≡ false → precedes b a ≡ true
unfolding precedes
precedes_total (i, m) (j, n) h = ground (arith, codes_leb-total (codes i) (codes j))

precedes_trans : (a b c : Entry) → precedes a b ≡ true → precedes b c ≡ true → precedes a c ≡ true
unfolding precedes
precedes_trans (i, m) (j, n) (k, o) h l =
    ground (arith, codes_leb_trans (codes i) (codes j) (codes k))

precedes_self : (a : Entry) → precedes a a ≡ true
unfolding precedes
precedes_self (i, m) = ground (arith, codes_leb_self (codes i))

first-insert_entry :
    (x : Entry) (ys : List Entry)
    → first (insert_entry x ys)
      ≡ some (elim (first ys) [ none ↦ x | some y ↦ if precedes x y then x else y ])
unfolding insert_entry
first-insert_entry x [] = refl
first-insert_entry x (y ∷ ys) = ground arith

-- The first of the sorted entries of a dict that pass the test.
pub record IsBest (f : ModelSpec → Bool) (d : Dict String ModelSpec) (best : Entry) : Type 0 where
  pub stored : get best.0 d ≡ some best.1
  pub passes : f best.1 ≡ true
  pub before :
      (j : String) (n : ModelSpec) → get j d ≡ some n → f n ≡ true → precedes best (j, n) ≡ true

module _ (f : ModelSpec → Bool) where
  abbrev sorted : Dict String ModelSpec → List Entry
  sorted d = sort_entries (select (λ e. f e.1) d)

  none_passes :
      (d : Dict String ModelSpec)
      → first (sorted d) ≡ none
      → (j : String) (n : ModelSpec) → get j d ≡ some n
      → f n ≡ false
  unfolding sort_entries select get
  none_passes [] h j n at = absurd (ground arith)
  none_passes ((i, m) ∷ d) h j n at = elim (Bool-cases (f m)) [
    | inl passes ↦ absurd (ground (arith, rw passes at h, first-insert_entry (i, m) (sorted d)))
    | inr fails ↦ ground (arith, none_passes d (rw fails at h) j n, eq_iff i j)
  ]

  -- The first entry of the dict comes before all others that pass.
  IsBest-front :
      (i : String) (m : ModelSpec) (d : Dict String ModelSpec)
      → f m ≡ true
      → ((j : String) (n : ModelSpec)
          → get j d ≡ some n
          → f n ≡ true
          → precedes (i, m) (j, n) ≡ true)
      → IsBest f ((i, m) ∷ d) (i, m)
  unfolding get
  IsBest-front i m d passes later = record {
    stored = ground (arith, eq_iff i i);
    passes = passes;
    before = λ j n at ok_n. ground (arith, later j n, eq_iff i j, precedes_self (i, m));
  }

  -- An entry of the rest of the dict is still the best, if the front comes not before it.
  IsBest-later :
      (i : String) (m : ModelSpec) (d : Dict String ModelSpec) (best : Entry)
      → get i d ≡ none
      → IsBest f d best
      → (f m ≡ true → precedes best (i, m) ≡ true)
      → IsBest f ((i, m) ∷ d) best
  unfolding get
  IsBest-later i m d best new rest front = record {
    stored = ground (arith, rest.stored, new, eq_iff i best.0);
    passes = rest.passes;
    before = λ j n at ok_n. ground (arith, rest.before j n, eq_iff i j, front);
  }

  is_best :
      (d : Dict String ModelSpec) (best : Entry)
      → IsDict d
      → first (sorted d) ≡ some best
      → IsBest f d best
  unfolding sort_entries select
  is_best [] best dict h = absurd (ground arith)
  is_best ((i, m) ∷ d) best dict h = elim (Bool-cases (f m)) [
    | inr fails ↦
        IsBest-later i m d best dict.0 (is_best d best dict.1 (rw fails at h))
          (λ passes. absurd (ground arith))
    | inl passes ↦
        let chosen = sym (first-insert_entry (i, m) (sorted d)) ∙ (rw passes at h) in
        elim (Option-cases (first (sorted d))) [
          | inl alone ↦
              let here : (i, m) ≡ best = ground (arith, rw alone at chosen) in
              subst (IsBest f ((i, m) ∷ d)) here (
                IsBest-front i m d passes
                  (λ j n at ok_n. absurd (ground (arith, none_passes d alone j n at))))
          | inr (other, found) ↦
              let rest = is_best d other dict.1 found in
              elim (Bool-cases (precedes (i, m) other)) [
                | inl wins ↦
                    let here : (i, m) ≡ best = ground (arith, rw (found, wins) at chosen) in
                    subst (IsBest f ((i, m) ∷ d)) here (
                      IsBest-front i m d passes (λ j n at ok_n.
                        precedes_trans (i, m) other (j, n) wins (rest.before j n at ok_n)))
                | inr loses ↦
                    let here : other ≡ best = ground (arith, rw (found, loses) at chosen) in
                    subst (IsBest f ((i, m) ∷ d)) here (
                      IsBest-later i m d other dict.0 rest (λ _. precedes_total (i, m) other loses))
              ]
        ]
  ]

-- With the models in a dict, an experience that is not pinned and gets a model gets the best
-- candidate: stored and eligible, and no other eligible model has a higher priority, or the same
-- one with a smaller id.
pub select_model-IsBest :
    (doc : ProfileDocument) (id : String) (p : Profile) (chosen : String)
    → IsDict doc.models
    → truthy_text p.backend_model ≡ none
    → select_model doc id p ≡ ok (chosen, highest_priority)
    → (m : ModelSpec) × IsBest (is_candidate doc p.capability) doc.models (chosen, m)
unfolding select_model candidates
select_model-IsBest doc id p chosen dict free h =
    elim (Option-cases (first (candidates doc p.capability))) [
      | inl absent ↦ absurd (ground (arith, rw (free, absent) at h))
      | inr (best, found) ↦
          let own : best.0 ≡ chosen = ground (arith, rw (free, found) at h) in
          (
            best.1,
            subst (λ c. IsBest (is_candidate doc p.capability) doc.models (c, best.1)) own
                (is_best (is_candidate doc p.capability) doc.models best dict found),
          )
    ]
