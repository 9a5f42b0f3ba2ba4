-- ===== src/Paths/Examples.antt =====
-- Paths as `filepath` treats them.
use modigo_runner.Base.{◌≡◌, refl, codes, text_eq, split, contains, has_prefix}
use modigo_runner.Paths.{
  clean, clean_stack, resolve_all, resolve, go_up, render, join_segments, join, base, last_segment,
  drop_slashes, dir, through_last_slash, ext, extension,
}

paths_code : Unit {0}
unfolding clean clean_stack resolve_all resolve go_up render join_segments join base last_segment
    drop_slashes dir through_last_slash ext extension text_eq split contains has_prefix
paths_code = tt

paths :
    (clean (codes "/a//b/./../c/") ≡ codes "/a/c")
    × (clean (codes "../../x") ≡ codes "../../x")
    × (clean (codes "") ≡ codes ".")
    × (join (codes "/tmp/run") (codes "../x") ≡ codes "/tmp/x")
    × (base (codes "a/b.c/") ≡ codes "b.c")
    × (dir (codes "a/b/c") ≡ codes "a/b")
    × (dir (codes "c") ≡ codes ".")
    × (ext (codes "a.b/c.tar.gz") ≡ codes ".gz")
    × (ext (codes "a.b/c") ≡ codes "")
unfolding paths_code
paths = (refl, refl, refl, refl, refl, refl, refl, refl, refl)
