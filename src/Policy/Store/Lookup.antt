-- ===== src/Policy/Store/Lookup.antt =====
-- What NewStore's two maps hold: exactly the enabled profiles, under their names and labels.
use teen_dns.Base.{
  ap, sym, subst, ◌∙◌, ◌≡◌, ◌↔◌, refl, ◌⊎◌, inl, inr, true, false, List, [], ◌∷◌, In, none, some,
  Text, arith, Bool-cases, before_dot, is_empty, lookup, insert, has_key-lookup, lookup-insert_self,
  lookup-insert_new, insert_inv, ok, Result-cases, bind_inv, text_eq, ok_inj,
}
use teen_dns.Platform.{Platform}
use teen_dns.Policy.{Profile}
use teen_dns.Policy.Names.{normalize_name}
use teen_dns.Policy.Store.{Store, add_profile, add_profiles, empty_store, new_store, check_profile}

-- The profile `p` is kept as `q` under the name `host`.
pub record Kept (env : Platform) (p q : Profile) (host : Text) : Type 0 where
  pub enabled : p.disabled ≡ false
  pub normal : normalize_name env p.hostname ≡ ok host
  pub has_id : is_empty p.id ≡ false
  pub checked : check_profile env host p ≡ ok q

record Added (env : Platform) (s s' : Store) (p : Profile) : Type 0 where
  host : Text
  stored : Profile
  kept : Kept env p stored host
  new_host : lookup host s.profiles ≡ none
  new_label : lookup (before_dot host) s.profile_labels ≡ none
  profiles : s'.profiles ≡ insert host stored s.profiles
  labels : s'.profile_labels ≡ insert (before_dot host) stored s.profile_labels

add_profile-Added :
    (env : Platform) (s s' : Store) (p : Profile)
    → p.disabled ≡ false
    → add_profile env s p ≡ ok s'
    → Added env s s' p
unfolding add_profile
add_profile-Added env s s' p on h = elim (Result-cases (normalize_name env p.hostname)) [
  | inl (host, e) ↦ elim (Result-cases (check_profile env host p)) [
    | inl (stored, e') ↦ record {
      host = host;
      stored = stored;
      kept = record { enabled = on; normal = e; has_id = ground arith; checked = e' };
      new_host = has_key-lookup host s.profiles (ground arith);
      new_label = has_key-lookup (before_dot host) s.profile_labels (ground arith);
      profiles = ground arith;
      labels = ground arith;
    }
    | inr (x, e') ↦ ground arith
  ]
  | inr (x, e) ↦ ground arith
]

add_profile-disabled :
    (env : Platform) (s s' : Store) (p : Profile)
    → p.disabled ≡ true
    → add_profile env s p ≡ ok s'
    → s ≡ s'
unfolding add_profile
add_profile-disabled env s s' p off h = ground arith

-- What a store finds stays found, and what it finds was found before or was added.
module _ (env : Platform) (s s' : Store) (p : Profile) (h : add_profile env s p ≡ ok s') where
  add_profile-keeps :
      (k : Text) (q : Profile) → lookup k s.profiles ≡ some q → lookup k s'.profiles ≡ some q
  add_profile-keeps k q e = elim (Bool-cases p.disabled) [
    | inl off ↦
        ap (lookup k) (ap (λ (x : Store). x.profiles) (sym (add_profile-disabled env s s' p off h)))
        ∙ e
    | inr on ↦
        let a = add_profile-Added env s s' p on h in
        ap (lookup k) a.profiles ∙ lookup-insert_new a.host k a.stored q s.profiles a.new_host e
  ]

  add_profile-keeps_label :
      (k : Text) (q : Profile)
      → lookup k s.profile_labels ≡ some q
      → lookup k s'.profile_labels ≡ some q
  add_profile-keeps_label k q e = elim (Bool-cases p.disabled) [
    | inl off ↦
        ap (lookup k)
          (ap (λ (x : Store). x.profile_labels) (sym (add_profile-disabled env s s' p off h)))
        ∙ e
    | inr on ↦
        let a = add_profile-Added env s s' p on h in
        ap (lookup k) a.labels
        ∙ lookup-insert_new (before_dot a.host) k a.stored q s.profile_labels a.new_label e
  ]

  add_profile_inv :
      (k : Text) (q : Profile)
      → lookup k s'.profiles ≡ some q
      → Kept env p q k ⊎ (lookup k s.profiles ≡ some q)
  add_profile_inv k q e = elim (Bool-cases p.disabled) [
    | inl off ↦
        inr (
          ap (lookup k) (ap (λ (x : Store). x.profiles) (add_profile-disabled env s s' p off h))
          ∙ e)
    | inr on ↦
        let a = add_profile-Added env s s' p on h in
        elim (insert_inv a.host k a.stored q s.profiles (ap (lookup k) (sym a.profiles) ∙ e)) [
          | inl (same, e') ↦ inl (rw (same, e') a.kept)
          | inr old ↦ inr old
        ]
  ]

  add_profile_inv_label :
      (k : Text) (q : Profile)
      → lookup k s'.profile_labels ≡ some q
      → ((host : Text) × Kept env p q host × (k ≡ before_dot host))
        ⊎ (lookup k s.profile_labels ≡ some q)
  add_profile_inv_label k q e = elim (Bool-cases p.disabled) [
    | inl off ↦ inr (
        ap (lookup k) (ap (λ (x : Store). x.profile_labels) (add_profile-disabled env s s' p off h))
        ∙ e)
    | inr on ↦
        let a = add_profile-Added env s s' p on h in
        elim (insert_inv (before_dot a.host) k a.stored q s.profile_labels
          (ap (lookup k) (sym a.labels) ∙ e)) [
            | inl (same, e') ↦ inl (a.host, rw e' a.kept, same)
            | inr old ↦ inr old
          ]
  ]

  add_profile-finds :
      p.disabled ≡ false
      → (host : Text) × (q : Profile) × Kept env p q host
        × (lookup host s'.profiles ≡ some q)
        × (lookup (before_dot host) s'.profile_labels ≡ some q)
  add_profile-finds on =
      let a = add_profile-Added env s s' p on h in
      (
        a.host,
        a.stored,
        a.kept,
        ap (lookup a.host) a.profiles ∙ lookup-insert_self a.host a.stored s.profiles,
        ap (lookup (before_dot a.host)) a.labels
            ∙ lookup-insert_self (before_dot a.host) a.stored s.profile_labels,
      )

add_profiles-keeps :
    (env : Platform) (ps : List Profile) (s s' : Store) (k : Text) (q : Profile)
    → add_profiles env s ps ≡ ok s'
    → ((lookup k s.profiles ≡ some q) → (lookup k s'.profiles ≡ some q))
      × ((lookup k s.profile_labels ≡ some q) → (lookup k s'.profile_labels ≡ some q))
unfolding add_profiles
add_profiles-keeps env [] s s' k q h =
    (λ e. ground (arith, ap (λ (x : Store). lookup k x.profiles)), λ e. ground arith)
add_profiles-keeps env (p ∷ ps) s s' k q h =
    let (mid, first, rest) = bind_inv (add_profile env s p) (λ n. add_profiles env n ps) h in
    let (keep, keep_label) = add_profiles-keeps env ps mid s' k q rest in
    (
      λ e. keep (add_profile-keeps env s mid p first k q e),
      λ e. keep_label (add_profile-keeps_label env s mid p first k q e),
    )

-- The profile of the list that a found one comes from.
abbrev pub Origin : Platform → List Profile → Text → Profile → Type 0
Origin env ps host q = (p : Profile) × In p ps × Kept env p q host

Origin-cons :
    (env : Platform) (p : Profile) (ps : List Profile) (host : Text) (q : Profile)
    → Origin env ps host q
    → Origin env (p ∷ ps) host q
Origin-cons env p ps host q (x, i, k) = (x, inr i, k)

add_profiles_inv :
    (env : Platform) (ps : List Profile) (s s' : Store) (k : Text) (q : Profile)
    → add_profiles env s ps ≡ ok s'
    → lookup k s'.profiles ≡ some q
    → Origin env ps k q ⊎ (lookup k s.profiles ≡ some q)
unfolding add_profiles
add_profiles_inv env [] s s' k q h e = inr (ground arith)
add_profiles_inv env (p ∷ ps) s s' k q h e =
    let (mid, first, rest) = bind_inv (add_profile env s p) (λ n. add_profiles env n ps) h in
    elim (add_profiles_inv env ps mid s' k q rest e) [
      | inl o ↦ inl (Origin-cons env p ps k q o)
      | inr old ↦ elim (add_profile_inv env s mid p first k q old) [
        | inl kept ↦ inl (p, inl refl, kept)
        | inr older ↦ inr older
      ]
    ]

add_profiles_inv_label :
    (env : Platform) (ps : List Profile) (s s' : Store) (k : Text) (q : Profile)
    → add_profiles env s ps ≡ ok s'
    → lookup k s'.profile_labels ≡ some q
    → ((host : Text) × Origin env ps host q × (k ≡ before_dot host))
      ⊎ (lookup k s.profile_labels ≡ some q)
unfolding add_profiles
add_profiles_inv_label env [] s s' k q h e = inr (ground arith)
add_profiles_inv_label env (p ∷ ps) s s' k q h e =
    let (mid, first, rest) = bind_inv (add_profile env s p) (λ n. add_profiles env n ps) h in
    elim (add_profiles_inv_label env ps mid s' k q rest e) [
      | inl (host, o, same) ↦ inl (host, Origin-cons env p ps host q o, same)
      | inr old ↦ elim (add_profile_inv_label env s mid p first k q old) [
        | inl (host, kept, same) ↦ inl (host, (p, inl refl, kept), same)
        | inr older ↦ inr older
      ]
    ]

-- An enabled profile of an accepted list is found under its normalized hostname and under the
-- first label of that name.
add_profiles-finds :
    (env : Platform) (ps : List Profile) (s s' : Store) (p : Profile)
    → add_profiles env s ps ≡ ok s'
    → In p ps
    → p.disabled ≡ false
    → (host : Text) × (q : Profile) × Kept env p q host
      × (lookup host s'.profiles ≡ some q)
      × (lookup (before_dot host) s'.profile_labels ≡ some q)
unfolding add_profiles
add_profiles-finds env [] s s' p h i on = absurd i.0
add_profiles-finds env (x ∷ ps) s s' p h i on =
    let (mid, first, rest) = bind_inv (add_profile env s x) (λ n. add_profiles env n ps) h in
    elim i [
      | inl same ↦
          let (host, q, kept, e, e') =
            add_profile-finds env s mid x first
              (ap (λ (y : Profile). y.disabled) (sym same) ∙ on) in
          (
            host,
            q,
            subst (λ y. Kept env y q host) (sym same) kept,
            (add_profiles-keeps env ps mid s' host q rest).0 e,
            (add_profiles-keeps env ps mid s' (before_dot host) q rest).1 e',
          )
      | inr j ↦ add_profiles-finds env ps mid s' p rest j on
    ]

-- In a store built from an accepted list, a name finds a profile exactly if some enabled profile
-- of the list has that normalized hostname and passed the checks as the one that is found.
pub lookup-new_store_iff :
    (env : Platform) (ps : List Profile) (s : Store) (host : Text) (q : Profile)
    → new_store env ps ≡ ok s
    → (lookup host s.profiles ≡ some q) ↔ Origin env ps host q
unfolding new_store lookup
lookup-new_store_iff env ps s host q h = (sound, complete)
  where
    sound : lookup host s.profiles ≡ some q → Origin env ps host q
    sound e = elim (add_profiles_inv env ps empty_store s host q h e) [
      | inl o ↦ o
      | inr none_yet ↦ ground arith
    ]

    complete : Origin env ps host q → lookup host s.profiles ≡ some q
    complete (p, i, k) =
        let (host', q', k', e, _) = add_profiles-finds env ps empty_store s p h i k.enabled in
        let same : host' ≡ host = ok_inj host' host (sym k'.normal ∙ k.normal) in
        let checked : check_profile env host p ≡ ok q' = rw same at k'.checked in
        let found : lookup host s.profiles ≡ some q' = rw same at e in
        found ∙ ap some (ok_inj q' q (sym checked ∙ k.checked))

-- In a store built from an accepted list, a label finds a profile exactly if some enabled
-- profile of the list passed the checks as the one that is found, under a hostname with that
-- first label.
pub lookup-label_iff :
    (env : Platform) (ps : List Profile) (s : Store) (label : Text) (q : Profile)
    → new_store env ps ≡ ok s
    → (lookup label s.profile_labels ≡ some q)
      ↔ ((host : Text) × Origin env ps host q × (label ≡ before_dot host))
unfolding new_store lookup
lookup-label_iff env ps s label q h = (sound, complete)
  where
    sound :
        lookup label s.profile_labels ≡ some q
        → (host : Text) × Origin env ps host q × (label ≡ before_dot host)
    sound e = elim (add_profiles_inv_label env ps empty_store s label q h e) [
      | inl o ↦ o
      | inr none_yet ↦ ground arith
    ]

    complete :
        (host : Text) × Origin env ps host q × (label ≡ before_dot host)
        → lookup label s.profile_labels ≡ some q
    complete (host, (p, i, k), at) =
        let (host', q', k', _, e) = add_profiles-finds env ps empty_store s p h i k.enabled in
        let same : host' ≡ host = ok_inj host' host (sym k'.normal ∙ k.normal) in
        let checked : check_profile env host p ≡ ok q' = rw same at k'.checked in
        let found : lookup (before_dot host) s.profile_labels ≡ some q' = rw same at e in
        rw at (found ∙ ap some (ok_inj q' q (sym checked ∙ k.checked)))
