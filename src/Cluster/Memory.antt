-- ===== src/Cluster/Memory.antt =====
-- A cluster in memory: it shows that the laws can be met, and runs the tests.
use group_sync_operator.Prelude.{
  ℕ, ◌+◌, ◌/◌, ◌%◌, String, ◌≡◌, refl, subst, ok-injective, true, false, Option, none, some, List,
  [], ◌∷◌, Result, ok, err, Error, external, ◌==◌, All, Occurs, arith, if◌then◌else◌, holds,
  holds-eq_some, holds-some, inl, inr, eq_iff, eq_refl, Bool-cases,
}
use group_sync_operator.Prelude.Int.{pos}
use group_sync_operator.Prelude.Dict.{Dict, get, lookup, insert, lookup-insert}
use group_sync_operator.Timestamp.{Time}
use group_sync_operator.Api.{GroupSync}
use group_sync_operator.Cluster.{Group, Stored, stored, Metric, Cluster, ClusterLaws, View}

pub record World : Type 0 where
  pub groups : Dict Stored
  pub seconds : ℕ
  pub metrics : List (String × Metric)
  pub instance : GroupSync
  pub errors : List Error

abbrev pub not_found : Error
not_found = external (record {
  query_out_of_bounds = false;
  entry_not_found = false;
  no_such_object = false;
  api_not_found = true;
  text = "not found";
})

abbrev named : String → Stored → Group
named n s = record {
  name = n;
  uid = "uid";
  labels = s.labels;
  annotations = s.annotations;
  users = s.users;
}

abbrev found : String → Option Stored → Result Group
found n none = err not_found
found n (some s) = ok (named n s)

abbrev remove : String → Dict Stored → Dict Stored
remove n [] = []
remove n ((j, s) ∷ m) = let rest = remove n m in if j == n then rest else (j, s) ∷ rest

abbrev add : String → String → String → Option Stored → List Group → List Group
add k v n none rest = rest
add k v n (some s) rest = if holds v (get k s.labels) then named n s ∷ rest else rest

abbrev collect : String → String → Dict Stored → Dict Stored → List Group
collect k v all [] = []
collect k v all ((n, _) ∷ m) = add k v n (lookup n all) (collect k v all m)

abbrev time_of : ℕ → Time
time_of s = record {
  year = 2021;
  month = 1;
  day = 1 + s / 86400;
  hour = s / 3600 % 24;
  minute = s / 60 % 60;
  second = s % 60;
  zone = "UTC";
  offset = pos 0;
}

abbrev pub memory : Cluster World
memory = record {
  get_group = λ n w. (found n (lookup n w.groups), w);
  list_groups = λ k v w. (ok (collect k v w.groups w.groups), w);
  write_group = λ g w. (ok tt, record w { groups = insert g.name (stored g) w.groups });
  delete_group = λ g w. (ok tt, record w { groups = remove g.name w.groups });
  get_instance = λ a b w. (ok w.instance, w);
  update_instance = λ i w. (ok tt, record w { instance = i });
  manage_error = λ i e w. (ok (record { requeue_after = 1 }), record w { errors = e ∷ w.errors });
  manage_success = λ i w. (ok (record { requeue_after = 0 }), record w { instance = i });
  now = λ w. (ok (time_of w.seconds), record w { seconds = w.seconds + 1 });
  count = λ s k w. (ok tt, record w { metrics = (s, k) ∷ w.metrics });
  schedule_is_valid = λ s. s == "@daily";
  next_run = λ s t. if s == "@daily" then some (86400, 86400) else none;
}

abbrev pub held : View World
held w n = lookup n w.groups

lookup-remove_self : (n : String) (m : Dict Stored) → lookup n (remove n m) ≡ none
lookup-remove_self n [] = refl
lookup-remove_self n ((j, s) ∷ m) = ground (arith, lookup-remove_self n m)

lookup-remove_ne :
    (n k : String) (m : Dict Stored) → (n == k) ≡ false → lookup k (remove n m) ≡ lookup k m
lookup-remove_ne n k [] h = refl
lookup-remove_ne n k ((j, s) ∷ m) h =
    ground (arith, lookup-remove_ne n k m h, eq_iff j n, eq_iff j k, eq_iff n k)

get_sound :
    (n : String) (o : Option Stored) (g : Group)
    → found n o ≡ ok g
    → (g.name ≡ n) × (o ≡ some (stored g))
get_sound n none g h = cc
get_sound n (some s) g h = ground arith

found-none : (n : String) (o : Option Stored) (e : Error) → found n o ≡ err e → o ≡ none
found-none n none e h = refl
found-none n (some s) e h = absurd (cc)

module _ (k v : String) (all : Dict Stored) where
  add_sound :
      (n : String) (o : Option Stored) (rest : List Group)
      → lookup n all ≡ o
      → All (λ g. (get k g.labels ≡ some v) × (lookup g.name all ≡ some (stored g))) rest
      → All
          (λ g. (get k g.labels ≡ some v) × (lookup g.name all ≡ some (stored g)))
          (add k v n o rest)
  add_sound n none rest e h = h
  add_sound n (some s) rest e h = elim (Bool-cases (holds v (get k s.labels))) [
    | inl y ↦ rw y ((holds-eq_some v (get k s.labels) y, e), h)
    | inr f ↦ rw f h
  ]

  collect_sound :
      (m : Dict Stored)
      → All
          (λ g. (get k g.labels ≡ some v) × (lookup g.name all ≡ some (stored g)))
          (collect k v all m)
  collect_sound [] = tt
  collect_sound ((n, s) ∷ m) = add_sound n (lookup n all) (collect k v all m) refl (collect_sound m)

  module _ (n : String) (s : Stored) (e : lookup n all ≡ some s) (l : get k s.labels ≡ some v) where
    Occurs-add :
        (j : String) (o : Option Stored) (g : Group) (rest : List Group)
        → Occurs g rest
        → Occurs g (add k v j o rest)
    Occurs-add j none g rest h = h
    Occurs-add j (some t) g rest h = elim (Bool-cases (holds v (get k t.labels))) [
      | inl y ↦ rw y (inr h)
      | inr f ↦ rw f h
    ]

    collect_complete :
        (m : Dict Stored) (t : Stored)
        → lookup n m ≡ some t
        → Occurs (named n s) (collect k v all m)
    collect_complete [] t h = absurd (cc)
    collect_complete ((j, u) ∷ m) t h = elim (Bool-cases (j == n)) [
      | inl y ↦ rw ((eq_iff j n).0 y, e, holds-some v (get k s.labels) l) (inl refl)
      | inr f ↦
          Occurs-add j (lookup j all) (named n s) (collect k v all m)
            (collect_complete m t (rw f at h))
    ]

pub memory-laws : ClusterLaws memory held
memory-laws = record {
  get_keeps = λ n w m. refl;
  get_ok = λ n w g h. get_sound n (lookup n w.groups) g h;
  get_not_found = λ n w e h m. found-none n (lookup n w.groups) e h;
  list_keeps = λ k v w m. refl;
  list_sound = λ k v w gs h.
      subst (All (λ g. (get k g.labels ≡ some v) × (lookup g.name w.groups ≡ some (stored g))))
        (ok-injective h) (collect_sound k v w.groups w.groups);
  list_complete = λ k v w gs n s h e l. (
    named n s,
    refl,
    subst (Occurs (named n s)) (ok-injective h)
        (collect_complete k v w.groups n s e l w.groups s e),
  );
  write_ok = λ g w h. simp (lookup-insert, eq_refl);
  write_others = λ g w n h. simp (lookup-insert, h);
  delete_ok = λ g w h. lookup-remove_self g.name w.groups;
  delete_others = λ g w n h. lookup-remove_ne g.name n w.groups h;
  now_keeps = λ w m. refl;
  count_keeps = λ s k w m. refl;
  error_keeps = λ i e w m. refl;
  success_keeps = λ i w m. refl;
  instance_keeps = λ a b w m. refl;
  update_keeps = λ i w m. refl;
}
