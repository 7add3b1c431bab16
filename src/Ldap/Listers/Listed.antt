-- ===== src/Ldap/Listers/Listed.antt =====
-- Which groups are listed.
use mathlib.Core.List.{Sublistᴰ}
use mathlib.Core.Option.{some-injective}
use group_sync_operator.Prelude.{
  String, ◌≡◌, refl, ap, sym, subst, eq_of_==, ◌∙◌, Bool, true, false, not, ◌&&◌, Option, none,
  some, List, [], ◌∷◌, ◌++◌, Exec, Result, ok, err, panic, >>=-eq_ok, Bool-cases, inl, inr, ◌⊎◌,
  arith, ◌>>=◌, lift, member, ◌==◌, eq_iff, if◌then◌else◌, Occurs,
}
use group_sync_operator.Prelude.Dict.{get, get_or_empty, lookup, lookup-insert}
use group_sync_operator.Constants.{ldap_url_annotation, ldap_uid_annotation, ldap_host_label}
use group_sync_operator.Cluster.{Group}
use group_sync_operator.Ldap.Listers.{
  Lister, drop_blacklisted, blacklist_lister, validate_group_annotations, Mapped, note_group,
  matching, note_matching, list_marked, all_openshift_lister, with_client,
}

pub member-drop_blacklisted :
    (n : String) (blacklist names : List String)
    → member n (drop_blacklisted blacklist names) ≡ (member n names && not (member n blacklist))
unfolding drop_blacklisted
member-drop_blacklisted n blacklist [] = refl
member-drop_blacklisted n blacklist (x ∷ xs) =
    ground (arith, member-drop_blacklisted n blacklist xs, eq_iff x n)

drop_blacklisted-sublist :
    (blacklist names : List String) → Sublistᴰ (drop_blacklisted blacklist names) names
unfolding drop_blacklisted
drop_blacklisted-sublist blacklist [] = Sublistᴰ.slnil
drop_blacklisted-sublist blacklist (x ∷ xs) = elim (Bool-cases (member x blacklist)) [
  | inl y ↦ rw y (Sublistᴰ.cons (drop_blacklisted-sublist blacklist xs))
  | inr f ↦ rw f (Sublistᴰ.cons-cons refl (drop_blacklisted-sublist blacklist xs))
]

module _ {S : Type 0} where
  -- What the base lists and the blacklist does not hold is listed, in the order of the base.
  pub blacklist_lister_result :
      (blacklist : List String) (base : Lister S) (s t : S) (xs : List String)
      → base s ≡ (ok xs, t)
      → (ys : List String) × (blacklist_lister blacklist base s ≡ (ok ys, t))
        × ((n : String) → member n ys ≡ (member n xs && not (member n blacklist)))
        × Sublistᴰ ys xs
  unfolding blacklist_lister
  blacklist_lister_result blacklist base s t xs h = (
    drop_blacklisted blacklist xs,
    rw h,
    λ n. member-drop_blacklisted n blacklist xs,
    drop_blacklisted-sublist blacklist xs,
  )

matching-true :
    (name ldap_url : String) (o p : Option String)
    → matching name ldap_url o p ≡ ok true
    → (o ≡ some ldap_url) × (p ≡ some (elim p [ none ↦ "" | some v ↦ v ]))
matching-true name ldap_url none p h = absurd (cc)
matching-true name ldap_url (some a) none h = absurd (ground arith)
matching-true name ldap_url (some a) (some b) h = (ground (arith, eq_iff a ldap_url), refl)

-- A group with both annotations, the URL being the one that is synchronised.
validate_group_annotations-true :
    (ldap_url : String) (g : Group)
    → validate_group_annotations ldap_url g ≡ ok true
    → (get ldap_url_annotation g.annotations ≡ some ldap_url)
      × (get ldap_uid_annotation g.annotations
          ≡ some (get_or_empty ldap_uid_annotation g.annotations))
unfolding validate_group_annotations
validate_group_annotations-true ldap_url g h =
    matching-true g.name ldap_url (get ldap_url_annotation g.annotations)
      (get ldap_uid_annotation g.annotations) h

-- A group that was read, is not blacklisted, has the URL and the UID, and the name.
pub record Source (blacklist : List String) (ldap_url : String) (gs : List Group) (uid n : String)
    : Type 0 where
  pub group : Group
  pub read : Occurs group gs
  pub named : group.name ≡ n
  pub allowed : member group.name blacklist ≡ false
  pub url : get ldap_url_annotation group.annotations ≡ some ldap_url
  pub uid_is : get ldap_uid_annotation group.annotations ≡ some uid

-- A group that is read later is read.
Source-later :
    (blacklist : List String) (ldap_url : String) (g : Group) (gs : List Group) (uid n : String)
    → Source blacklist ldap_url gs uid n
    → Source blacklist ldap_url (g ∷ gs) uid n
Source-later blacklist ldap_url g gs uid n f = record {
  group = f.group;
  read = inr f.read;
  named = f.named;
  allowed = f.allowed;
  url = f.url;
  uid_is = f.uid_is;
}

module _ {S : Type 0} where
  abbrev noted : Group → Mapped S → Mapped S
  noted g s = record s { names = note_group g s.names }

  -- How a turn that succeeded went on: past a group that matched, or past another.
  abbrev Went :
      Result Bool
      → Group
      → (List String → Exec (Mapped S) (List String))
      → List String
      → Mapped S
      → Type 0
  Went r g rest uids s =
      ((r ≡ ok true)
        × (note_matching r g rest uids s
            ≡ rest (uids ++ get_or_empty ldap_uid_annotation g.annotations ∷ []) (noted g s)))
      ⊎ ((r ≡ ok false) × (note_matching r g rest uids s ≡ rest uids s))

  note_matching-ok :
      (r : Result Bool) (g : Group) (rest : List String → Exec (Mapped S) (List String))
      (uids : List String) (s : Mapped S) (us : List String)
      → (note_matching r g rest uids s).0 ≡ ok us
      → Went r g rest uids s
  note_matching-ok (ok true) g rest uids s us h = inl (refl, refl)
  note_matching-ok (ok false) g rest uids s us h = inr (refl, refl)
  note_matching-ok (err e) g rest uids s us h = absurd (cc)
  note_matching-ok panic g rest uids s us h = absurd (cc)

  module _ (blacklist : List String) (ldap_url : String) where
    -- The names that were there, and those of the groups that match.
    abbrev Sound : List Group → Mapped S → Mapped S → Type 0
    Sound gs s t =
        (uid n : String)
        → lookup uid t.names ≡ some n
        → (lookup uid s.names ≡ some n) ⊎ Source blacklist ldap_url gs uid n

    Sound-later : (g : Group) (gs : List Group) (s t : Mapped S) → Sound gs s t → Sound (g ∷ gs) s t
    Sound-later g gs s t sound uid n h = elim (sound uid n h) [
      | inl old ↦ inl old
      | inr f ↦ inr (Source-later blacklist ldap_url g gs uid n f)
    ]

    Sound-noted :
        (g : Group) (gs : List Group) (s t : Mapped S)
        → member g.name blacklist ≡ false
        → validate_group_annotations ldap_url g ≡ ok true
        → Sound gs (noted g s) t
        → Sound (g ∷ gs) s t
    Sound-noted g gs s t allowed valid sound uid n h = elim (sound uid n h) [
      | inl new ↦
          let key = get_or_empty ldap_uid_annotation g.annotations in
          let found : (if key == uid then some g.name else lookup uid s.names) ≡ some n =
            sym (lookup-insert key uid g.name s.names) ∙ new in
          elim (Bool-cases (key == uid)) [
            | inl same ↦
                let (url, is) = validate_group_annotations-true ldap_url g valid in
                inr (record {
                  group = g;
                  read = inl refl;
                  named = some-injective _ _ (rw same at found);
                  allowed = allowed;
                  url = url;
                  uid_is = is ∙ ap some (eq_of_== key uid same);
                })
            | inr other ↦ inl (rw other at found)
          ]
      | inr f ↦ inr (Source-later blacklist ldap_url g gs uid n f)
    ]

    list_marked-Sound :
        (gs : List Group) (uids us : List String) (s : Mapped S)
        → (list_marked blacklist ldap_url gs uids s).0 ≡ ok us
        → Sound gs s (list_marked blacklist ldap_url gs uids s).1
    unfolding list_marked
    list_marked-Sound [] uids us s h = λ uid n e. inl e
    list_marked-Sound (g ∷ gs) uids us s h = elim (Bool-cases (member g.name blacklist)) [
      | inl y ↦ rw y (
          Sound-later g gs s (list_marked blacklist ldap_url gs uids s).1
            (list_marked-Sound gs uids us s (rw y at h)))
      | inr f ↦
          elim (note_matching-ok (validate_group_annotations ldap_url g) g
            (λ vs. list_marked blacklist ldap_url gs vs) uids s us (rw f at h)) [
              | inl (valid, e) ↦
                  let key = get_or_empty ldap_uid_annotation g.annotations in
                  rw f (
                    subst (λ r. Sound (g ∷ gs) s r.1) (sym e)
                      (Sound-noted g gs s
                        (list_marked blacklist ldap_url gs (uids ++ key ∷ []) (noted g s)).1 f valid
                        (list_marked-Sound gs (uids ++ key ∷ []) us (noted g s)
                          (subst (λ r. r.0 ≡ ok us) e (rw f at h)))))
              | inr (_, e) ↦ rw f (
                  subst (λ r. Sound (g ∷ gs) s r.1) (sym e)
                    (Sound-later g gs s (list_marked blacklist ldap_url gs uids s).1
                      (list_marked-Sound gs uids us s (subst (λ r. r.0 ≡ ok us) e (rw f at h)))))
            ]
    ]

  module _ (split_host_port : String → Result (String × String))
      (list_groups : String → String → Exec S (List Group)) (blacklist : List String)
      (ldap_url : String) where
    listed_from :
        (s : Mapped S) (us : List String)
        → (all_openshift_lister split_host_port list_groups blacklist ldap_url s).0 ≡ ok us
        → (h : String × String) × (split_host_port ldap_url ≡ ok h)
          × (gs : List Group) × ((list_groups ldap_host_label h.0 s.client).0 ≡ ok gs)
          × ((uid n : String)
              → lookup uid
                  (all_openshift_lister split_host_port list_groups blacklist ldap_url s).1.names
                ≡ some n
              → (lookup uid s.names ≡ some n) ⊎ Source blacklist ldap_url gs uid n)
    unfolding all_openshift_lister
    listed_from s us h =
        let after : String × String → Exec (Mapped S) (List String) = λ x.
          with_client (list_groups ldap_host_label x.0) >>= λ gs.
          list_marked blacklist ldap_url gs [] in
        let (x, e, k) = >>=-eq_ok (lift (split_host_port ldap_url)) after s us h in
        let (gs, d, run) =
          >>=-eq_ok (with_client (list_groups ldap_host_label x.0))
            (λ gs. list_marked blacklist ldap_url gs []) s us k in
        (
          x,
          e,
          gs,
          d,
          rw (e, d)
              (list_marked-Sound blacklist ldap_url gs [] us
                (with_client (list_groups ldap_host_label x.0) s).1 run),
        )

    -- When all marked groups are listed with success and a UID is then mapped to a name that it was
    -- not mapped to before, some group that the client returned has that name and that UID, its URL
    -- annotation is the URL that is synchronised, and it is not blacklisted.
    pub all_openshift_lister_sound :
        (s : Mapped S) (us : List String) (uid n : String)
        → (all_openshift_lister split_host_port list_groups blacklist ldap_url s).0 ≡ ok us
        → lookup uid (all_openshift_lister split_host_port list_groups blacklist ldap_url s).1.names
          ≡ some n
        → (h : String × String) × (split_host_port ldap_url ≡ ok h)
          × (gs : List Group) × ((list_groups ldap_host_label h.0 s.client).0 ≡ ok gs)
          × ((lookup uid s.names ≡ some n) ⊎ Source blacklist ldap_url gs uid n)
    all_openshift_lister_sound s us uid n h mapped =
        let (x, e, gs, d, sound) = listed_from s us h in (x, e, gs, d, sound uid n mapped)
