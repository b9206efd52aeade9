-- ===== src/KernelConfig/Mark.antt =====
-- The counting of references of kernel-config.py: the menus and the untitled entries that a setting
-- depends on are marked as used, and a symbol that it depends on must have a setting.
use auto_lfs_builder.Prelude.{
  ℕ, zero, suc, ◌+◌, List, [], ◌∷◌, length, get_elem?, set, Bool, true, false, ◌||◌, Option, none,
  some, nat_eq, list_eq, ◌==◌, if◌then◌else◌, Dict, lookup,
}
use auto_lfs_builder.Text.{Text, is_nil}
use auto_lfs_builder.KernelConfig.Stack.{
  Key, symbol, number, key_eq, index_error, key_error, needs_unselected, Result, ok, raise, ◌>>=◌,
}
use auto_lfs_builder.KernelConfig.Entry.{Entry}

-- `index_ikey`: the loop runs from the last entry to the first, and each assignment replaces the
-- earlier ones of the same key, in front of which it stands here. The number is the index of the first entry of the list.
unfoldable pub index_ikey : ℕ → List Entry → Dict Key ℕ
index_ikey i [] = []
index_ikey i (entry ∷ r) = (entry.internal_key, i) ∷ index_ikey (i + 1) r

-- `not fa`, for a key or `None`.
unfoldable pub no_dep : Option Key → Bool
no_dep none = true
no_dep (some (symbol s)) = is_nil s
no_dep (some (number n)) = n == 0

-- `type(fa) == int`
unfoldable pub is_number : Key → Bool
is_number (symbol s) = false
is_number (number n) = true

-- `not title`
unfoldable pub untitled : Option Text → Bool
untitled none = true
untitled (some t) = is_nil t

unfoldable pub unselected : Option Text → Bool
unselected none = true
unselected (some val) = false

-- What is done with the entry `r[j]` that `key` depends on.
unfoldable pub mark_used : Key → Key → ℕ → List Entry → Result (List Entry)
unfolding is_number untitled unselected
mark_used key fa j r = elim (get_elem? r j) [
  | none ↦ raise index_error
  | some dep ↦
      if is_number fa || untitled dep.title
      then ok (set r j (record dep { val = some [] }))
      else if unselected dep.val
      then raise (needs_unselected key fa)
      else ok r
]

-- `index_ikey[fa]`, and what follows.
unfoldable pub mark_dep : Dict Key ℕ → Key → Key → List Entry → Result (List Entry)
unfolding lookup mark_used
mark_dep index key fa r = elim (lookup fa index) [
  | none ↦ raise (key_error fa)
  | some j ↦ mark_used key fa j r
]

-- The body of the loop, for the entry at an index.
unfoldable pub mark_entry : Dict Key ℕ → Dict Key Key → ℕ → List Entry → Result (List Entry)
unfolding lookup mark_dep no_dep unselected
mark_entry index main_dep i r = elim (get_elem? r i) [
  | none ↦ raise index_error
  | some entry ↦
      if unselected entry.val || no_dep (lookup entry.internal_key main_dep)
      then ok r
      else elim (lookup entry.internal_key main_dep) [
        | none ↦ ok r
        | some fa ↦ mark_dep index entry.internal_key fa r
      ]
]

-- `for i in reversed(range(n))`
unfoldable pub mark_entries : Dict Key ℕ → Dict Key Key → ℕ → List Entry → Result (List Entry)
unfolding mark_entry
mark_entries index main_dep zero r = ok r
mark_entries index main_dep (suc i) r = do
  r' ← mark_entry index main_dep i r
  mark_entries index main_dep i r'

unfoldable pub mark_all : Dict Key Key → List Entry → Result (List Entry)
unfolding index_ikey mark_entries
mark_all main_dep r = mark_entries (index_ikey 0 r) main_dep (length r) r
