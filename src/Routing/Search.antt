-- ===== src/Routing/Search.antt =====
-- What the search for a path finds.
use open_task.Common.{
  String, ◌≡◌, refl, Bool, true, false, ◌||◌, Option, none, some, Bool-cases, inl, inr, ◌⊎◌, sym,
  ◌∙◌, Option-cases, subst,
}
use mathlib.Core.Option.{some-injective, none-ne-some}
use open_task.Routing
use open_task.Routing.{
  Router, router, Children, no_children, children, Routers, nil, cons, path, is, latest,
  search_route, search_from,
}

-- A route of a table, at its top or below a route of it.
mutual
  pub data IsIn : Router → Routers → Type 0 where
    here : {r : Router} {rs : Routers} → IsIn r (cons r rs)
    there : {r q : Router} {rs : Routers} → IsIn r rs → IsIn r (cons q rs)
    below : {r q : Router} {rs : Routers} → IsBelow r q → IsIn r (cons q rs)

  pub data IsBelow : Router → Router → Type 0 where
    child :
        {r : Router} {i p : Option String} {m : Routing.Meta} {cs : Routers}
        → IsIn r cs
        → IsBelow r (router i p m (children cs))

-- Whether a route with the path stands anywhere in a table.
unfoldable mutual
  pub has_path : String → Children → Bool
  has_path wanted no_children = false
  has_path wanted (children rs) = has_path_in wanted rs

  pub has_path_in : String → Routers → Bool
  has_path_in wanted nil = false
  has_path_in wanted (cons (router i p m c) rest) =
      is p wanted || (has_path wanted c || has_path_in wanted rest)

-- A result that was found in a table, or before.
abbrev IsFound : String → Routers → Option Router → Router → Type 0
IsFound wanted rs before r = ((is (path r) wanted ≡ true) × IsIn r rs) ⊎ (before ≡ some r)

mutual
  unfolding search_route

  search_route-IsBelow :
      (wanted : String) (i p : Option String) (m : Routing.Meta) (c : Children) (r : Router)
      → search_route wanted c ≡ some r
      → (is (path r) wanted ≡ true) × IsBelow r (router i p m c)
  search_route-IsBelow wanted i p m no_children r h = cc
  search_route-IsBelow wanted i p m (children cs) r h =
      elim (search_from-IsFound wanted cs none r h) [
        | inl (fits, place) ↦ (fits, child place)
        | inr earlier ↦ cc
      ]

  search_from-IsFound :
      (wanted : String) (rs : Routers) (before : Option Router) (r : Router)
      → search_from wanted rs before ≡ some r
      → IsFound wanted rs before r
  search_from-IsFound wanted nil before r h = inr h
  search_from-IsFound wanted (cons (router i p m c) rest) before r h =
      elim (Bool-cases (is p wanted)) [
        | inl e ↦
            let same : some (router i p m c) ≡ some r = rw e at h in
            subst (IsFound wanted (cons (router i p m c) rest) before) (some-injective _ _ same)
              (inl (e, here))
        | inr e ↦
            let later : search_from wanted rest (latest (search_route wanted c) before) ≡ some r =
              rw e at h in
            elim (search_from-IsFound wanted rest (latest (search_route wanted c) before) r later) [
              | inl (fits, place) ↦ inl (fits, there place)
              | inr earlier ↦ elim (Option-cases (search_route wanted c)) [
                | inl e ↦ inr (rw e at earlier)
                | inr (q, e) ↦
                    let reached : some q ≡ some r = rw e at earlier in
                    let (fits, place) = search_route-IsBelow wanted i p m c r (e ∙ reached) in
                    inl (fits, below place)
              ]
            ]
      ]

mutual
  unfolding search_route has_path

  finds_below :
      (wanted : String) (c : Children)
      → has_path wanted c ≡ true
      → (r : Router) × (search_route wanted c ≡ some r)
  finds_below wanted no_children h = cc
  finds_below wanted (children rs) h = finds_in wanted rs none (inl h)

  -- The loop finds a route if the table has one, and otherwise keeps what was found before.
  finds_in :
      (wanted : String) (rs : Routers) (before : Option Router)
      → (has_path_in wanted rs ≡ true) ⊎ ((q : Router) × (before ≡ some q))
      → (r : Router) × (search_from wanted rs before ≡ some r)
  finds_in wanted nil before (inl h) = cc
  finds_in wanted nil before (inr h) = h
  finds_in wanted (cons (router i p m c) rest) before h = elim (Bool-cases (is p wanted)) [
    | inl e ↦ (router i p m c, rw e refl)
    | inr e ↦
        let (r, found) =
          finds_in wanted rest (latest (search_route wanted c) before)
            (elim (Option-cases (search_route wanted c)) [
              | inr (q, f) ↦ inr (q, rw f refl)
              | inl f ↦ elim h [
                | inr (q, b) ↦ inr (q, rw f b)
                | inl known ↦ elim (Bool-cases (has_path wanted c)) [
                  | inl k ↦
                      let (q, g) = finds_below wanted c k in absurd (none-ne-some q (sym f ∙ g))
                  | inr k ↦ inl (rw (e, k) at known)
                ]
              ]
            ]) in
        (r, rw e found)
  ]

-- A route that searchRoute finds in a table has the path that is wanted and stands in the table, at
-- its top or below a route; and if any route of the table, at any depth, has the path, searchRoute
-- finds one.
pub search_route_lem :
    (wanted : String) (rs : Routers)
    → ((r : Router)
        → search_route wanted (children rs) ≡ some r
        → (is (path r) wanted ≡ true) × IsIn r rs)
      × (has_path_in wanted rs ≡ true → (r : Router) × (search_route wanted (children rs) ≡ some r))
unfolding search_route
search_route_lem wanted rs = (
  λ r h. elim (search_from-IsFound wanted rs none r h) [
    | inl found ↦ found
    | inr earlier ↦ absurd (none-ne-some r earlier)
  ],
  λ h. finds_in wanted rs none (inl h),
)
