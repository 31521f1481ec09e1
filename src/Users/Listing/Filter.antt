-- ===== src/Users/Listing/Filter.antt =====
-- Which users `buildListFilter` of user/repository/user.repository.ts lists.
use api_user.Prelude.{
  String, ◌≡◌, ◌⊎◌, ◌↔◌, inl, inr, refl, sym, ◌∙◌, List, [], ◌∷◌, ◌++◌, Bool, true, false, not,
  ◌&&◌, Option, none, some, is_some, any, every, ◌==◌, arith, Bool-cases, eq_iff,
}
use api_user.Csv.{Text}
use api_user.Redis.{codes}
use api_user.Parameters.Text.{trim}
use api_user.Users.{User, role_name}
use api_user.Users.Search.{RegExps, found, In, found-In, In-found}
use api_user.Users.Listing.{
  ListFilter, SearchField, name, last_name, email, user_name, field_text, role_condition,
  active_condition, not_deleted, same_flag, user_term, user_found, search_matches, search_condition,
  build_list_filter,
}

-- A role that is asked for is the role of the user.
abbrev pub RoleKept : Option String → User → Type 0
RoleKept none u = Unit
RoleKept (some role) u = (role ≡ "") ⊎ (role_name u.role ≡ role)

-- An activity that is asked for is the one of the user, deleted or not; else the user is not deleted.
abbrev pub ActivityKept : Option Bool → User → Type 0
ActivityKept none u = u.deleted_at ≡ none
ActivityKept (some active) u = u.is_active ≡ active

module _ (r : RegExps) where
  -- A field of the user has the term, or the user name has what follows its `@`.
  abbrev pub Matches : Text → User → Type 0
  Matches term u =
      ((f : SearchField) × In r term (field_text u f))
      ⊎ ((rest : Text) × (user_term term ≡ some rest) × In r rest (codes u.user_name))

  abbrev pub Searched : Option Text → User → Type 0
  Searched none u = Unit
  Searched (some []) u = Unit
  Searched (some (c ∷ s)) u = Matches (trim (c ∷ s)) u

  fields-In :
      (term : Text) (u : User) (fs : List SearchField)
      → any (λ f. found r term (field_text u f)) fs ≡ true
      → (f : SearchField) × In r term (field_text u f)
  fields-In term u [] h = cc
  fields-In term u (f ∷ fs) h = elim (Bool-cases (found r term (field_text u f))) [
    | inl here ↦ (f, found-In r term (field_text u f) here)
    | inr there ↦ fields-In term u fs (ground (arith, h, there))
  ]

  abbrev all_fields : List SearchField
  all_fields = name ∷ last_name ∷ email ∷ user_name ∷ []

  In-fields :
      (term : Text) (u : User) (f : SearchField)
      → found r term (field_text u f) ≡ true
      → any (λ g. found r term (field_text u g)) all_fields ≡ true
  In-fields term u name h = ground (arith, h)
  In-fields term u last_name h = ground (arith, h)
  In-fields term u email h = ground (arith, h)
  In-fields term u user_name h = ground (arith, h)

  user-In :
      (o : Option Text) (u : User)
      → user_found r o u ≡ true
      → (rest : Text) × (o ≡ some rest) × In r rest (codes u.user_name)
  user-In none u h = cc
  user-In (some rest) u h = (rest, refl, found-In r rest (codes u.user_name) h)

  search_matches-Matches :
      (term : Text) (u : User) → search_matches r term u ≡ true → Matches term u
  unfolding search_matches
  search_matches-Matches term u h =
      elim (Bool-cases (any (λ f. found r term (field_text u f)) all_fields)) [
        | inl here ↦ inl (fields-In term u all_fields here)
        | inr there ↦ inr (user-In (user_term term) u (ground (arith, h, there)))
      ]

  Matches-search_matches :
      (term : Text) (u : User) → Matches term u → search_matches r term u ≡ true
  unfolding search_matches
  Matches-search_matches term u (inl (f, at)) =
      ground (arith, In-fields term u f (In-found r term (field_text u f) at))
  Matches-search_matches term u (inr (rest, e, at)) =
      let there : user_found r (user_term term) u ≡ true =
        rw e (In-found r rest (codes u.user_name) at) in
      ground (arith, there)

  role_condition-RoleKept :
      (o : Option String) (u : User)
      → every (λ condition. condition u) (role_condition o) ≡ true
      → RoleKept o u
  role_condition-RoleKept none u h = tt
  role_condition-RoleKept (some role) u h = elim (Bool-cases (role == "")) [
    | inl none_asked ↦ inl ((eq_iff role "").0 none_asked)
    | inr asked ↦ inr ((eq_iff (role_name u.role) role).0 (ground (arith, h, asked)))
  ]

  RoleKept-role_condition :
      (o : Option String) (u : User)
      → RoleKept o u
      → every (λ condition. condition u) (role_condition o) ≡ true
  RoleKept-role_condition none u h = refl
  RoleKept-role_condition (some role) u (inl none_asked) =
      ground (arith, (eq_iff role "").1 none_asked)
  RoleKept-role_condition (some role) u (inr same) =
      ground (arith, (eq_iff (role_name u.role) role).1 same)

  same_flag-eq : (a b : Bool) → same_flag a b ≡ true → a ≡ b
  same_flag-eq true true h = refl
  same_flag-eq true false h = cc
  same_flag-eq false true h = cc
  same_flag-eq false false h = refl

  same_flag_refl : (a : Bool) → same_flag a a ≡ true
  same_flag_refl true = refl
  same_flag_refl false = refl

  not_some : {A : Type 0} (o : Option A) → not (is_some o) ≡ true → o ≡ none
  not_some none h = refl
  not_some (some a) h = cc

  abbrev activity_test : Option Bool → User → Bool
  activity_test o u = not_deleted o u && every (λ condition. condition u) (active_condition o)

  activity_test_iff : (o : Option Bool) (u : User) → activity_test o u ≡ true ↔ ActivityKept o u
  activity_test_iff none u = (λ h. not_some u.deleted_at (ground (arith, h)), λ e. rw e refl)
  activity_test_iff (some active) u = (
    λ h. same_flag-eq u.is_active active (ground (arith, h)),
    λ e. rw e (ground (arith, same_flag_refl active)),
  )

  search_iff :
      (o : Option Text) (u : User)
      → every (λ condition. condition u) (search_condition r o) ≡ true ↔ Searched o u
  search_iff none u = (λ h. tt, λ h. refl)
  search_iff (some []) u = (λ h. tt, λ h. refl)
  search_iff (some (c ∷ s)) u = (
    λ h. search_matches-Matches (trim (c ∷ s)) u (ground (arith, h)),
    λ m. ground (arith, Matches-search_matches (trim (c ∷ s)) u m),
  )

  every-append :
      (u : User) (ps qs : List (User → Bool))
      → every (λ condition. condition u) (ps ++ qs)
        ≡ (every (λ condition. condition u) ps && every (λ condition. condition u) qs)
  every-append u [] qs = refl
  every-append u (p ∷ ps) qs = ground (arith, every-append u ps qs)

  abbrev parts : ListFilter → User → Bool
  parts f u =
      every (λ condition. condition u) (role_condition f.role)
      && (activity_test f.is_active u
          && every (λ condition. condition u) (search_condition r f.search))

  build_list_filter-parts : (f : ListFilter) (u : User) → build_list_filter r f u ≡ parts f u
  unfolding build_list_filter
  build_list_filter-parts f u =
      let roles = role_condition f.role in
      let active = active_condition f.is_active in
      let search = search_condition r f.search in
      ground (arith, every-append u roles (active ++ search), every-append u active search)

  abbrev pub Listed : ListFilter → User → Type 0
  Listed f u = RoleKept f.role u × ActivityKept f.is_active u × Searched f.search u

  -- A user is listed exactly when the role and the activity that are asked for are those of the
  -- user, who is not deleted if no activity is asked for, and a text that is searched, without the
  -- white space around it, is part of the name, last name, address or user name but for its case, or
  -- else, after an `@`, of the user name. The text stands for itself, whatever
  -- signs it has. An empty role or text asks for nothing.
  pub build_list_filter_iff :
      (f : ListFilter) (u : User) → build_list_filter r f u ≡ true ↔ Listed f u
  build_list_filter_iff f u =
      let whole = build_list_filter-parts f u in
      let activity = activity_test_iff f.is_active u in
      let search = search_iff f.search u in
      (
        λ h.
            let all : parts f u ≡ true = sym whole ∙ h in
            (
              role_condition-RoleKept f.role u (ground (arith, all)),
              activity.0 (ground (arith, all)),
              search.0 (ground (arith, all)),
            ),
        λ (role, active, searched).
            whole
            ∙ ground (
              arith,
              RoleKept-role_condition f.role u role,
              activity.1 active,
              search.1 searched,
            ),
      )
