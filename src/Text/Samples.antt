-- ===== src/Text/Samples.antt =====
-- What the methods of `str` return on small inputs.
use auto_lfs_builder.Prelude.{◌≡◌, refl, true, [], ◌∷◌}
use auto_lfs_builder.Text.{codes, strip, splitlines, split_on, ends_with}

strip_runs : strip (codes "  make install \n") ≡ codes "make install"
unfolding strip
strip_runs = refl

splitlines_runs : splitlines (codes "a\r\nb\n\nc\n") ≡ codes "a" ∷ codes "b" ∷ [] ∷ codes "c" ∷ []
unfolding splitlines
splitlines_runs = refl

split_on_runs : split_on b',' (codes "a,,b") ≡ codes "a" ∷ [] ∷ codes "b" ∷ []
unfolding split_on
split_on_runs = refl

ends_with_runs : ends_with (codes ".xml") (codes "bash.xml") ≡ true
unfolding ends_with
ends_with_runs = refl
