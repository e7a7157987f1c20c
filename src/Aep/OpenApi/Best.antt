-- ===== src/Aep/OpenApi/Best.antt =====
-- The template that is chosen is the only best one.
use aep_go.Prelude.{
  All, Bool-cases, List, Option, Text, [], ap, append-nil, append_assoc, arith, check-ok, false,
  inl, inr, is_empty, none, ok, refl, some, subst, sym, text_eq, true, ◌++◌, ◌∙◌, ◌∷◌, ◌≡◌, ◌⊎◌,
}
use aep_go.Aep.OpenApi.{
  text_gt, after_template, Search, match_open_api_path, PathMatchOptions, template_score, PathMatch,
  new_search, search_result, after_templates, checked_target,
}

text_gt_total : (a b : Text) → text_gt a b ≡ false → text_eq a b ≡ false → text_gt b a ≡ true
unfolding text_gt text_eq
text_gt_total [] [] h g = absurd (ground arith)
text_gt_total [] (d ∷ b) h g = refl
text_gt_total (c ∷ a) [] h g = absurd (ground arith)
text_gt_total (c ∷ a) (d ∷ b) h g = ground (arith, text_gt_total a b)

text_gt_trans : (s m x : Text) → text_gt x m ≡ false → text_gt s m ≡ true → text_gt s x ≡ true
unfolding text_gt
text_gt_trans [] m x h g = absurd (ground arith)
text_gt_trans (c ∷ s) m [] h g = refl
text_gt_trans (c ∷ s) [] (e ∷ x) h g = absurd (ground arith)
text_gt_trans (c ∷ s) (d ∷ m) (e ∷ x) h g = ground (arith, text_gt_trans s m x)

text_gt_irrefl : (a b : Text) → text_gt a b ≡ true → text_gt b a ≡ false
unfolding text_gt
text_gt_irrefl [] b h = absurd (ground arith)
text_gt_irrefl (c ∷ a) [] h = refl
text_gt_irrefl (c ∷ a) (d ∷ b) h = ground (arith, text_gt_irrefl a b)

text_gt_self : (a : Text) → text_gt a a ≡ false
unfolding text_gt
text_gt_self [] = refl
text_gt_self (c ∷ a) = ground (arith, text_gt_self a)

module _ {A : Type 0} where
  All-snoc : (P : A → Type 0) (l : List A) {x : A} → All P l → P x → All P (l ++ (x ∷ []))
  All-snoc P [] h p = (p, tt)
  All-snoc P (y ∷ l) (now, later) p = (now, All-snoc P l later p)

  All-map : {P Q : A → Type 0} → ((x : A) → P x → Q x) → (l : List A) → All P l → All Q l
  All-map f [] h = tt
  All-map f (x ∷ l) (now, later) = (f x now, All-map f l later)

module _ (score : Text → Option Text) where
  -- A score of the template is not above the bound.
  abbrev AtMost : Text → Text → Type 0
  AtMost bound x = (s : Text) → score x ≡ some s → text_gt s bound ≡ false

  -- A score of the template is below the bound.
  abbrev Worse : Text → Text → Type 0
  Worse bound x = (s : Text) → score x ≡ some s → text_gt bound s ≡ true

  -- The template stands at one place of the list, it matches, and the templates at all other places
  -- have a lower score or do not match.
  pub record IsSole (templates : List Text) (best bound : Text) : Type 0 where
    pub before : List Text
    pub after : List Text
    pub placed : templates ≡ before ++ (best ∷ after)
    pub matches : score best ≡ some bound
    pub worse_before : All (Worse bound) before
    pub worse_after : All (Worse bound) after

  -- What the loop knows after the templates.
  abbrev Standing : List Text → Search → Type 0
  Standing seen search =
      ((is_empty search.best ≡ true) × All (λ x. score x ≡ none) seen)
      ⊎ ((is_empty search.best ≡ false)
          × All (AtMost search.best_specificity) seen
          × (search.ambiguous ≡ false → IsSole seen search.best search.best_specificity))

  IsSole-snoc :
      (seen : List Text) (best bound x : Text)
      → IsSole seen best bound
      → Worse bound x
      → IsSole (seen ++ (x ∷ [])) best bound
  IsSole-snoc seen best bound x h w = record {
    before = h.before;
    after = h.after ++ (x ∷ []);
    placed = ap (λ l. l ++ (x ∷ [])) h.placed ∙ append_assoc h.before (best ∷ h.after) (x ∷ []);
    matches = h.matches;
    worse_before = h.worse_before;
    worse_after = All-snoc _ h.after h.worse_after w;
  }

  -- A template that beats all earlier ones.
  beats :
      (seen : List Text) (x s : Text)
      → is_empty x ≡ false
      → score x ≡ some s
      → All (Worse s) seen
      → Standing (seen ++ (x ∷ [])) (record { best = x; best_specificity = s; ambiguous = false })
  beats seen x s named e worse = inr (
    named,
    All-snoc _ seen (All-map (λ y w r g. text_gt_irrefl s r (w r g)) seen worse)
        (λ r g. ground (arith, text_gt_self s)),
    λ _. record {
      before = seen;
      after = [];
      placed = refl;
      matches = e;
      worse_before = worse;
      worse_after = tt;
    },
  )

  after_template-Standing :
      (seen : List Text) (x : Text) (sc : Option Text) (search : Search)
      → is_empty x ≡ false
      → score x ≡ sc
      → Standing seen search
      → Standing (seen ++ (x ∷ [])) (after_template search x sc)
  unfolding after_template
  after_template-Standing seen x none search named e (inl (nothing, unmatched)) =
      inl (nothing, All-snoc _ seen unmatched e)
  after_template-Standing seen x none search named e (inr (found, bounded, sole)) = inr (
    found,
    All-snoc _ seen bounded (λ s g. absurd (ground arith)),
    λ clear. IsSole-snoc seen _ _ x (sole clear) (λ s g. absurd (ground arith)),
  )
  after_template-Standing seen x (some s) search named e (inl (nothing, unmatched)) =
      rw nothing
        (beats seen x s named e (All-map (λ y u r g. absurd (ground arith)) seen unmatched))
  after_template-Standing seen x (some s) search named e (inr (found, bounded, sole)) =
      elim (Bool-cases (text_gt s search.best_specificity)) [
        | inl better ↦
            rw (found, better)
              (beats seen x s named e (
                All-map (λ y b r g. text_gt_trans s search.best_specificity r (b r g) better) seen
                  bounded))
        | inr no_better ↦ elim (Bool-cases (text_eq s search.best_specificity)) [
          | inl tie ↦
              rw (found, no_better, tie)
                (inr (
                  found,
                  All-snoc _ seen bounded (λ r g. ground arith),
                  λ clear. absurd (ground arith),
                ))
          | inr lower ↦
              let below = text_gt_total s search.best_specificity no_better lower in
              rw (found, no_better, lower)
                (inr (
                  found,
                  All-snoc _ seen bounded (λ r g. ground arith),
                  λ clear. IsSole-snoc seen _ _ x (sole clear) (λ r g. ground (arith, below)),
                ))
        ]
      ]

  after_templates-Standing :
      (seen templates : List Text) (search : Search)
      → All (λ x. is_empty x ≡ false) templates
      → Standing seen search
      → Standing (seen ++ templates) (after_templates score templates search)
  unfolding after_templates
  after_templates-Standing seen [] search named h =
      subst (λ l. Standing l search) (sym (append-nil seen)) h
  after_templates-Standing seen (x ∷ templates) search (now, later) h =
      subst (λ l. Standing l (after_templates score templates (after_template search x (score x))))
        (append_assoc seen (x ∷ []) templates)
        (after_templates-Standing (seen ++ (x ∷ [])) templates (after_template search x (score x))
          later (after_template-Standing seen x (score x) search now refl h))

  search_result-IsSole :
      (templates : List Text) (search : Search) (method : Text) (m : PathMatch)
      → Standing templates search
      → search_result method search ≡ ok m
      → (bound : Text) × IsSole templates m.template bound
  unfolding search_result
  search_result-IsSole templates search method m (inl (nothing, _)) e = absurd (ground arith)
  search_result-IsSole templates search method m (inr (found, _, sole)) e =
      elim (Bool-cases search.ambiguous) [
        | inl tied ↦ absurd (ground arith)
        | inr clear ↦
            let same : search.best ≡ m.template = ground arith in
            (
              search.best_specificity,
              subst (λ t. IsSole templates t search.best_specificity) same (sole clear),
            )
      ]

-- If none of the templates is empty, a path that is matched is matched by a template that stands at
-- one place of the list, whose score is higher than that of every template at another place that
-- matches too.
pub match_open_api_path-IsSole :
    (to_upper : Text → Text) (templates : List Text) (options : PathMatchOptions) (m : PathMatch)
    → All (λ x. is_empty x ≡ false) templates
    → match_open_api_path to_upper templates options ≡ ok m
    → (bound : Text) × IsSole (template_score options) templates m.template bound
unfolding match_open_api_path
match_open_api_path-IsSole to_upper templates options m named e =
    let search = after_templates (template_score options) templates new_search in
    let (_, found) =
      check-ok (checked_target (to_upper options.method) options)
        (search_result (to_upper options.method) search) e in
    search_result-IsSole (template_score options) templates search (to_upper options.method) m
      (after_templates-Standing (template_score options) [] templates new_search named
        (inl (refl, tt)))
      found
