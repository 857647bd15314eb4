-- ===== src/Scim/Groups/Members.antt =====
-- internal/scim/groups/patch.go: the member lists.
use oad.Base.{ℕ, Bool, true, false, ◌&&◌, ◌||◌, not, List, [], ◌∷◌, ◌++◌, ◌==◌, if◌then◌else◌}

-- Membership, as of the `seen` maps.
unfoldable pub contains : List ℕ → ℕ → Bool
contains [] x = false
contains (y ∷ ys) x = (y == x) || contains ys x

-- The loop of mergeMembers and of dedupMembers.
unfoldable pub add_unseen : List ℕ → List ℕ → List ℕ → List ℕ
unfolding contains
add_unseen seen out [] = out
add_unseen seen out (id ∷ ids) =
    let skipped = add_unseen seen out ids in
    let added = add_unseen (id ∷ seen) (out ++ id ∷ []) ids in
    if contains seen id then skipped else added

unfoldable pub merge_members : List ℕ → List ℕ → List ℕ
unfolding add_unseen
merge_members base to_add = add_unseen base base to_add

unfoldable pub dedup_members : List ℕ → List ℕ
unfolding add_unseen
dedup_members ids = add_unseen [] [] ids

-- The loop of removeMember, before and after it has dropped the target.
unfoldable pub remove_first : Bool → List ℕ → ℕ → List ℕ
remove_first dropped [] target = []
remove_first dropped (id ∷ ids) target =
    if not dropped && (id == target)
    then remove_first true ids target
    else id ∷ remove_first dropped ids target

unfoldable pub remove_member : List ℕ → ℕ → List ℕ
unfolding remove_first
remove_member ids target = remove_first false ids target
