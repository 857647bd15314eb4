-- ===== src/Scim/Listing/Answered.antt =====
-- What the lists of internal/scim/users and internal/scim/groups answer.
use oad.Base.{ℕ, ◌≡◌, refl, ap, List, [], Option, map, ◌↔◌, Result, ok, err, ◌>>=◌}
use oad.Scim.Text.{Text}
use oad.Scim.Sql.{user_attrs, group_attrs}
use oad.Scim.Sql.Shifted.{user_attrs-PlainColumns, group_attrs-PlainColumns}
use oad.Scim.Users.Service.{RenderedUser, user_from_stored, user_type}
use oad.Scim.Groups.Repository.{RenderedGroup, group_type}
use oad.Scim.Groups.Service.{group_from_stored}
use oad.Scim.Listing.{ListedRow, Queries, ListError, list_page, list_users, list_groups}
use oad.Scim.Listing.Asked.{
  err-ne-ok, ok_injective, Answered, list_page-Answered, Answered-list_page,
}

-- A page whose rows are then rendered.
abbrev rendered_page :
    {A : Type 0}
    → (ListedRow → A)
    → Result ListError (List ListedRow × ℕ)
    → Result ListError (List A × ℕ)
rendered_page view r = r >>= λ p. ok (map view p.0, p.1)

rendered_page-rows :
    {A : Type 0} (view : ListedRow → A) (r : Result ListError (List ListedRow × ℕ)) (xs : List A)
    (total : ℕ)
    → rendered_page view r ≡ ok (xs, total)
    → (rows : List ListedRow) × (r ≡ ok (rows, total)) × (map view rows ≡ xs)
rendered_page-rows {A} view (err e) xs total h = absurd (err-ne-ok e (xs, total) h)
rendered_page-rows {A} view (ok (rows, n)) xs total h =
    let q = ok_injective (map view rows, n) (xs, total) (ok (map view rows, n)) refl h in
    (rows, ap (λ m. ok (rows, m)) (ap (λ (p : List A × ℕ). p.1) q), ap (λ (p : List A × ℕ). p.0) q)

rows-rendered_page :
    {A : Type 0} (view : ListedRow → A) (r : Result ListError (List ListedRow × ℕ)) (xs : List A)
    (rows : List ListedRow) (total : ℕ)
    → r ≡ ok (rows, total)
    → map view rows ≡ xs
    → rendered_page view r ≡ ok (xs, total)
rows-rendered_page view r xs rows total h k = rw (h, k) refl

-- A user as List of the repository leaves it.
abbrev pub listed_user : (ℕ → Text) → ListedRow → RenderedUser
listed_user print_uuid r = user_from_stored print_uuid (record {
  entity_id = r.entity_id;
  properties = r.properties;
  external_subject = r.external_subject;
})

-- A group as List of the repository leaves it.
abbrev pub listed_group : (ℕ → Text) → ListedRow → RenderedGroup
listed_group print_uuid r = group_from_stored print_uuid (record {
  entity_id = r.entity_id;
  properties = r.properties;
  external_subject = r.external_subject;
  members = [];
})

module _ {F : Type 0} (parse_float : Text → Option F) (queries : Queries F) (print_uuid : ℕ → Text)
    (provider filter : Text) (offset limit : ℕ) where
  users_iff :
      (users : List RenderedUser) (total : ℕ)
      → (list_users parse_float queries print_uuid provider filter offset limit ≡ ok (users, total))
        ↔ ((rows : List ListedRow) × Answered parse_float user_attrs queries user_type provider
              offset limit filter rows total
            × (map (listed_user print_uuid) rows ≡ users))
  unfolding list_users
  users_iff users total = (
    λ h.
        let (rows, p, k) =
          rendered_page-rows (listed_user print_uuid)
            (list_page parse_float queries user_attrs user_type provider filter offset limit) users
            total h in
        (
          rows,
          list_page-Answered parse_float user_attrs queries user_type provider offset limit
              user_attrs-PlainColumns filter rows total p,
          k,
        ),
    λ (rows, a, k).
        rows-rendered_page (listed_user print_uuid) _ users rows total
          (Answered-list_page parse_float user_attrs queries user_type provider offset limit
            user_attrs-PlainColumns filter rows total a)
          k,
  )

  groups_iff :
      (groups : List RenderedGroup) (total : ℕ)
      → (list_groups parse_float queries print_uuid provider filter offset limit
          ≡ ok (groups, total))
        ↔ ((rows : List ListedRow) × Answered parse_float group_attrs queries group_type provider
              offset limit filter rows total
            × (map (listed_group print_uuid) rows ≡ groups))
  unfolding list_groups
  groups_iff groups total = (
    λ h.
        let (rows, p, k) =
          rendered_page-rows (listed_group print_uuid)
            (list_page parse_float queries group_attrs group_type provider filter offset limit)
            groups total h in
        (
          rows,
          list_page-Answered parse_float group_attrs queries group_type provider offset limit
              group_attrs-PlainColumns filter rows total p,
          k,
        ),
    λ (rows, a, k).
        rows-rendered_page (listed_group print_uuid) _ groups rows total
          (Answered-list_page parse_float group_attrs queries group_type provider offset limit
            group_attrs-PlainColumns filter rows total a)
          k,
  )

  -- A list of users, and one of groups, succeeds exactly if its filter is empty, or is parsed and translated, and both
  -- queries are answered: the count and the page of the rows of the type that the provider links, further restricted
  -- by the fragment of the filter with each placeholder one up, with the provider, the values of the filter and, for
  -- the page, the limit and the offset as arguments in this order. The total is the count, and the page is rendered
  -- row by row, groups without members.
  pub lists_iff :
      ((users : List RenderedUser) (total : ℕ)
        → (list_users parse_float queries print_uuid provider filter offset limit
            ≡ ok (users, total))
          ↔ ((rows : List ListedRow) × Answered parse_float user_attrs queries user_type provider
                offset limit filter rows total
              × (map (listed_user print_uuid) rows ≡ users)))
      × ((groups : List RenderedGroup) (total : ℕ)
          → (list_groups parse_float queries print_uuid provider filter offset limit
              ≡ ok (groups, total))
            ↔ ((rows : List ListedRow) × Answered parse_float group_attrs queries group_type
                  provider offset limit filter rows total
                × (map (listed_group print_uuid) rows ≡ groups)))
  lists_iff = (users_iff, groups_iff)
