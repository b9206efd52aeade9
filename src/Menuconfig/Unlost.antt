-- ===== src/Menuconfig/Unlost.antt =====
-- The dialogs of menuconfig.py that save keep track of what is saved.
use auto_lfs_builder.Prelude.{
  ℕ, ◌≡◌, refl, sym, ◌∙◌, subst, List, [], ◌∷◌, true, Option, none, some, list_eq, nat_eq, ◌==◌,
  if◌then◌else◌, list_beq, list_beq_iff, on_if, on_option,
}
use auto_lfs_builder.Text.{Text, is_nil}
use auto_lfs_builder.Menuconfig.Same.{resize_main-Same}
use auto_lfs_builder.Menuconfig.Session.{
  Files, Session, resize, menu_rows, try_save, try_save_min, is_set, save_dialog, save, save_min,
}
use auto_lfs_builder.Menuconfig.OnScreen.{some-injective}
use auto_lfs_builder.Menuconfig.Saved.{contents, IsSaved, Same-IsSaved}

module _ {V : Type 0} where
  -- The file of the session has the configuration, unless that is to be saved.
  unfoldable pub IsSafe : Session V → Type 0
  IsSafe s = IsSaved (contents s.conf_filename s.events) s.menu

  -- The file of the session has the configuration.
  unfoldable pub HasSaved : Session V → Type 0
  HasSaved s = contents s.conf_filename s.events ≡ some s.menu.values

  pub HasSaved-IsSafe : (s : Session V) → HasSaved s → IsSafe s
  unfolding HasSaved IsSafe IsSaved
  HasSaved-IsSafe s h = λ _. h

  pub resize-IsSafe : (height : ℕ) (s : Session V) → IsSafe s → IsSafe (resize height s)
  unfolding IsSafe
  resize-IsSafe height s h =
      Same-IsSaved (contents s.conf_filename s.events) s.menu _
        (resize_main-Same (menu_rows s.show_help height) s.menu) h

  -- Writing the values of the session to any file keeps it so.
  put_there :
      (g f : Text) (v : V) (saved : Option V) (unchanged : Type 0)
      → (unchanged → saved ≡ some v)
      → unchanged
      → (if g == f then some v else saved) ≡ some v
  unfolding list_beq
  put_there g f v saved unchanged h u = on_if (λ o. o ≡ some v) (g == f) (λ _. refl) (λ _. h u)

  pub put_here : (f : Text) (v : V) (saved : Option V) → (if f == f then some v else saved) ≡ some v
  unfolding list_beq
  put_here f v saved =
      on_if (λ o. o ≡ some v) (f == f) (λ _. refl) (λ q. cc (sym q ∙ (list_beq_iff f f).1 refl))

module _ {V : Type 0} (files : Files V) where
  -- A way to save under a file name, and whether the file has the configuration then.
  abbrev pub Way : Type 0
  Way = Text → Session V → Option Text × Session V

  abbrev pub IsSafeWay : Way → Type 0
  IsSafeWay way = (f : Text) (s : Session V) → IsSafe s → IsSafe (way f s).1

  pub try_save-IsSafe : IsSafeWay (try_save files)
  unfolding try_save IsSafe IsSaved contents
  try_save-IsSafe f s h =
      on_option (λ (r : Option Text × Session V). IsSafe r.1)
        (files.write_config s.events s.menu.values f) (λ _. h)
        (λ msg _. put_there f s.conf_filename s.menu.values _ _ h)

  try_save_min-IsSafe : IsSafeWay (try_save_min files)
  unfolding try_save_min IsSafe IsSaved contents
  try_save_min-IsSafe f s h =
      on_option (λ (r : Option Text × Session V). IsSafe r.1)
        (files.write_min_config s.events s.menu.values f) (λ _. h)
        (λ msg _. put_there f s.conf_filename s.menu.values _ _ h)

  save_dialog-IsSafe :
      (way : Way)
      → IsSafeWay way
      → (answers : List (Option Text)) (s : Session V) → IsSafe s
      → IsSafe (save_dialog files way answers s).1
  unfolding save_dialog
  save_dialog-IsSafe way safe [] s h = h
  save_dialog-IsSafe way safe (none ∷ answers) s h = h
  save_dialog-IsSafe way safe (some text ∷ answers) s h =
      let f = files.expand_user text in
      on_if (λ (r : Option Text × Session V). IsSafe r.1) (is_set files (way f s).0)
        (λ _. safe f s h) (λ _. save_dialog-IsSafe way safe answers (way f s).1 (safe f s h))

  -- A file that was named after a save has the configuration.
  abbrev IsWritten : Option Text × Session V → Type 0
  IsWritten r = (f : Text) → r.0 ≡ some f → contents f r.1.events ≡ some r.1.menu.values

  try_save_set :
      (f : Text) (s : Session V)
      → is_set files (try_save files f s).0 ≡ true
      → contents f (try_save files f s).1.events ≡ some (try_save files f s).1.menu.values
  unfolding try_save contents
  try_save_set f s =
      on_option
        (λ (r : Option Text × Session V).
          is_set files r.0 ≡ true → contents f r.1.events ≡ some r.1.menu.values)
        (files.write_config s.events s.menu.values f) (λ _ q. cc q)
        (λ msg _ _. put_here f s.menu.values (contents f s.events))

  -- A message of the save to the session's own file means that this has the configuration.
  pub try_save-HasSaved :
      (s : Session V) (msg : Text)
      → (try_save files s.conf_filename s).0 ≡ some msg
      → HasSaved (try_save files s.conf_filename s).1
  unfolding try_save contents HasSaved
  try_save-HasSaved s msg =
      on_option
        (λ (r : Option Text × Session V).
          r.0 ≡ some msg → contents r.1.conf_filename r.1.events ≡ some r.1.menu.values)
        (files.write_config s.events s.menu.values s.conf_filename) (λ _ q. cc q)
        (λ text _ _. put_here s.conf_filename s.menu.values (contents s.conf_filename s.events))

  save_dialog-IsWritten :
      (answers : List (Option Text)) (s : Session V)
      → IsWritten (save_dialog files (try_save files) answers s)
  unfolding save_dialog
  save_dialog-IsWritten [] s = λ f e. cc e
  save_dialog-IsWritten (none ∷ answers) s = λ f e. cc e
  save_dialog-IsWritten (some text ∷ answers) s =
      let f = files.expand_user text in
      let tried = try_save files f s in
      on_if IsWritten (is_set files tried.0)
        (λ q g e.
          subst (λ g. contents g tried.1.events ≡ some tried.1.menu.values) (some-injective e)
            (try_save_set f s q))
        (λ _. save_dialog-IsWritten answers tried.1)

  pub save-IsSafe :
      (answers : List (Option Text)) (s : Session V) → IsSafe s → IsSafe (save files answers s)
  unfolding save IsSafe IsSaved
  save-IsSafe answers s h =
      let r = save_dialog files (try_save files) answers s in
      let kept = save_dialog-IsSafe (try_save files) try_save-IsSafe answers s h in
      on_option IsSafe r.0 (λ _. kept)
        (λ f e. on_if IsSafe (is_nil f) (λ _. kept) (λ _ _. save_dialog-IsWritten answers s f e))

  pub save_min-IsSafe :
      (answers : List (Option Text)) (s : Session V) → IsSafe s → IsSafe (save_min files answers s)
  unfolding save_min IsSafe
  save_min-IsSafe answers s h =
      let r = save_dialog files (try_save_min files) answers s in
      let kept = save_dialog-IsSafe (try_save_min files) try_save_min-IsSafe answers s h in
      on_option IsSafe r.0 (λ _. kept) (λ f e. on_if IsSafe (is_nil f) (λ _. kept) (λ _. kept))
