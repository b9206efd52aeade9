-- ===== src/Menuconfig/Pressed.antt =====
-- The keys of the main loop of menuconfig.py keep what its operations keep.
use auto_lfs_builder.Prelude.{
  Option, true, false, ◌==◌, ◌||◌, zero, suc, if◌then◌else◌, nat_eq, ℕ, ◌≡◌, subst, List, Bool,
  true, false, ◌&&◌, ◌||◌, some, list_eq, nat_eq, ◌==◌, get_elem?, on_if,
}
use auto_lfs_builder.Text.{codes, Text}
use auto_lfs_builder.Menuconfig.Kconf.{Kconf}
use auto_lfs_builder.Menuconfig.Navigate.{
  State, select_next_menu_entry, select_prev_menu_entry, enter_menu,
}
use auto_lfs_builder.Menuconfig.OnScreen.{some_steps, some-injective}
use auto_lfs_builder.Menuconfig.Edit.{
  Key, key_left, key_right, key_up, key_down, key_home, key_end, key_npage, key_ppage,
  key_backspace, key_dc, key_resize, other_key, char, is_erase,
}
use auto_lfs_builder.Menuconfig.Kconf.{tri_n, tri_m, tri_y}
use auto_lfs_builder.Menuconfig.ChangeNode.{change_node}
use auto_lfs_builder.Menuconfig.Loop.{
  times, pg_jump, one_of, change_or_enter, enter_or_change, leave_or_ask, press_char, press,
}
use auto_lfs_builder.Menuconfig.Kept.{Rules, change_node-kept, set_sel_node_tri_val-kept}

module _ {V : Type 0} (kconf : Kconf V) (P : State V → Type 0) (rules : Rules kconf P) where
  -- An action that returns keeps the property.
  abbrev pub Keeps : Option (State V) → Type 0
  Keeps o = (s' : State V) → o ≡ some s' → P s'

  pub some-Keeps : (s : State V) → P s → Keeps (some s)
  some-Keeps s h s' e = subst P (some-injective e) h

  times-kept :
      (f : State V → State V)
      → ((s : State V) → P s → P (f s))
      → (n : ℕ) (s : State V) → P s
      → P (times n f s)
  times-kept f keeps zero s h = h
  times-kept f keeps (suc n) s h = times-kept f keeps n (f s) (keeps s h)

  change_or_enter-Keeps :
      (answers : List (Option Text)) (s : State V) → P s → Keeps (change_or_enter kconf answers s)
  unfolding change_or_enter
  change_or_enter-Keeps answers s h s' e =
      let (node, _, e1) = some_steps (get_elem? s.shown s.sel_node_i) _ e in
      let (r, set, e2) = some_steps (change_node kconf node answers s) _ e1 in
      let ok = change_node-kept kconf P rules node answers s r h set in
      subst P (some-injective e2) (on_if P r.0 (λ _. ok) (λ _. rules.on_enter node r.1 ok))

  enter_or_change-Keeps :
      (answers : List (Option Text)) (s : State V) → P s → Keeps (enter_or_change kconf answers s)
  unfolding enter_or_change
  enter_or_change-Keeps answers s h s' e =
      let (node, _, e1) = some_steps (get_elem? s.shown s.sel_node_i) _ e in
      on_if (λ o. o ≡ some s' → P s') (enter_menu kconf node s).0
        (λ _ q. subst P (some-injective q) (rules.on_enter node s h))
        (λ _ q.
          let (r, set, e2) = some_steps (change_node kconf node answers s) _ q in
          subst P (some-injective e2) (change_node-kept kconf P rules node answers s r h set))
        e1

  leave_or_ask-Keeps : (c : ℕ) (s : State V) → P s → Keeps (leave_or_ask kconf c s)
  unfolding leave_or_ask
  leave_or_ask-Keeps c s h =
      on_if Keeps (c == 0x1b && s.cur_menu == kconf.top_node) (λ _. some-Keeps s h)
        (λ _ s' e. rules.on_leave s s' h e)

  press_char-Keeps :
      (erase : Option ℕ) (rows : ℕ) (answers : List (Option Text)) (c : ℕ) (s : State V)
      → P s
      → Keeps (press_char kconf erase rows answers c s)
  unfolding press_char
  press_char-Keeps erase rows answers c s h =
      branch (one_of c (codes "jJ")) (some-Keeps _ (rules.on_next s h)) (
        branch (one_of c (codes "kK")) (some-Keeps _ (rules.on_prev s h)) (
          branch (c == 0x04)
            (some-Keeps _ (times-kept select_next_menu_entry rules.on_next pg_jump s h))
            (branch (c == 0x15)
              (some-Keeps _ (times-kept select_prev_menu_entry rules.on_prev pg_jump s h))
              (branch (c == b'G') (some-Keeps _ (rules.on_last s h)) (
                branch (c == b'g') (some-Keeps _ (rules.on_first s h)) (
                  branch (c == b' ') (change_or_enter-Keeps answers s h) (
                    branch (one_of c (codes "\nlL")) (enter_or_change-Keeps answers s h) (
                      branch (one_of c (codes "nN"))
                        (λ s' e. set_sel_node_tri_val-kept kconf P rules tri_n s s' h e)
                        (branch (one_of c (codes "mM"))
                          (λ s' e. set_sel_node_tri_val-kept kconf P rules tri_m s s' h e)
                          (branch (one_of c (codes "yY"))
                            (λ s' e. set_sel_node_tri_val-kept kconf P rules tri_y s s' h e)
                            (branch (is_erase erase c || c == 0x1b || one_of c (codes "hH"))
                              (leave_or_ask-Keeps c s h)
                              (branch (one_of c (codes "/?fF"))
                                (some-Keeps _ (rules.on_resize rows s h))
                                (branch (one_of c (codes "aA")) (some-Keeps _ (rules.on_toggle s h))
                                  (some-Keeps s h))))))))))))))
    where
      branch : (b : Bool) {x y : Option (State V)} → Keeps x → Keeps y → Keeps (if b then x else y)
      branch true p q = p
      branch false p q = q

  pub press-Keeps :
      (erase : Option ℕ) (rows : ℕ) (answers : List (Option Text)) (c : Key) (s : State V)
      → P s
      → Keeps (press kconf erase rows answers c s)
  unfolding press
  press-Keeps erase rows answers key_resize s h = some-Keeps _ (rules.on_resize rows s h)
  press-Keeps erase rows answers key_down s h = some-Keeps _ (rules.on_next s h)
  press-Keeps erase rows answers key_up s h = some-Keeps _ (rules.on_prev s h)
  press-Keeps erase rows answers key_npage s h =
      some-Keeps _ (times-kept select_next_menu_entry rules.on_next pg_jump s h)
  press-Keeps erase rows answers key_ppage s h =
      some-Keeps _ (times-kept select_prev_menu_entry rules.on_prev pg_jump s h)
  press-Keeps erase rows answers key_end s h = some-Keeps _ (rules.on_last s h)
  press-Keeps erase rows answers key_home s h = some-Keeps _ (rules.on_first s h)
  press-Keeps erase rows answers key_right s h = enter_or_change-Keeps answers s h
  press-Keeps erase rows answers key_left s h = λ s' e. rules.on_leave s s' h e
  press-Keeps erase rows answers key_backspace s h = λ s' e. rules.on_leave s s' h e
  press-Keeps erase rows answers (char c) s h = press_char-Keeps erase rows answers c s h
  press-Keeps erase rows answers key_dc s h = some-Keeps s h
  press-Keeps erase rows answers (other_key n) s h = some-Keeps s h
