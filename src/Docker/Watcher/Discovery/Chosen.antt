-- ===== src/Docker/Watcher/Discovery/Chosen.antt =====
-- internal/docker/watcher.go: selectContainer described as a whole.
use docker_monitor.Docker.Watcher.Discovery.{
  ContainerSummary, is_match, match_any, select_container, select_name, trim_slash,
}
use docker_monitor.Model.{ContainerInfo}
use docker_monitor.Prelude.{
  Bool, List, Option, [], any, arith, false, none, not, refl, some, true, ◌&&◌, ◌∷◌, ◌≡◌,
}
use docker_monitor.Prelude.Bytes.{Bytes, is_empty}

abbrev pub found : Option ContainerInfo → Bool
found none = false
found (some i) = true

abbrev pub matches : (Bytes → Bytes → Option Bool) → Bytes → Bytes → Bool
matches match_path name p = not (is_empty p) && is_match match_path (match_path p name)

match_any-any :
    (match_path : Bytes → Bytes → Option Bool) (name : Bytes) (ps : List Bytes)
    → match_any match_path name ps ≡ any (matches match_path name) ps
unfolding match_any
match_any-any match_path name [] = refl
match_any-any match_path name (p ∷ ps) = rw (match_any-any match_path name ps) refl

-- selectContainer finds a container exactly if one of its names, without the slash, is matched by a
-- pattern that is not empty and well formed.
pub select_container-any :
    (match_path : Bytes → Bytes → Option Bool) (summary : ContainerSummary) (patterns : List Bytes)
    → found (select_container match_path summary patterns)
      ≡ any (λ name. any (matches match_path (trim_slash name)) patterns) summary.names
unfolding select_container
select_container-any match_path summary patterns = names summary.names
  where
    names :
        (ns : List Bytes)
        → found (select_name match_path summary.id ns patterns)
          ≡ any (λ name. any (matches match_path (trim_slash name)) patterns) ns
    names [] = refl
    names (n ∷ ns) = ground (arith, names ns, match_any-any match_path (trim_slash n) patterns)
