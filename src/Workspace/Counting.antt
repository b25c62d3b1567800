-- ===== src/Workspace/Counting.antt =====
-- Counts of rows under the statements of src/control/workspaces.ts.
use bloom_workspaces.Base.{
  ◌+◌, ◌≤◌, ◌≡◌, Bool, true, false, List, [], ◌∷◌, ◌++◌, map, count, any, arith,
}
use bloom_workspaces.Workspace.Rows.{WorkspaceRow, update_row}

module _ (p : WorkspaceRow → Bool) where
  pub count-append : (xs ys : List WorkspaceRow) → count p (xs ++ ys) ≡ count p xs + count p ys
  count-append [] ys = omega arith
  count-append (x ∷ xs) ys = ground (arith, count-append xs ys)

  pub count_mono :
      (q : WorkspaceRow → Bool) (rows : List WorkspaceRow)
      → ((r : WorkspaceRow) → p r ≡ true → q r ≡ true)
      → count p rows ≤ count q rows
  count_mono q [] h = omega arith
  count_mono q (r ∷ rows) h = ground (arith, count_mono q rows h, h r)

  -- An update that makes no row satisfy the test does not raise the count.
  pub count-update :
      (q : WorkspaceRow → Bool) (f : WorkspaceRow → WorkspaceRow) (rows : List WorkspaceRow)
      → ((r : WorkspaceRow) → q r ≡ true → p (f r) ≡ true → p r ≡ true)
      → count p (map (update_row q f) rows) ≤ count p rows
  count-update q f [] h = omega arith
  count-update q f (r ∷ rows) h = ground (arith, count-update q f rows h, h r)

  -- Any update raises it by the number of updated rows at most.
  pub count-claim :
      (q : WorkspaceRow → Bool) (f : WorkspaceRow → WorkspaceRow) (rows : List WorkspaceRow)
      → count p (map (update_row q f) rows) ≤ count p rows + count q rows
  count-claim q f [] = omega arith
  count-claim q f (r ∷ rows) = ground (arith, count-claim q f rows)

  pub any-count : (rows : List WorkspaceRow) → any p rows ≡ false → count p rows ≡ 0
  any-count [] h = omega arith
  any-count (r ∷ rows) h = ground (arith, any-count rows)
