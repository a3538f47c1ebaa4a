-- ===== src/Docker/OwnContainer/Tests.antt =====
-- A host name that is a container's short id, once more in the control groups.
use docker_monitor.Docker.OwnContainer.{Inspected, container, not_found}
use docker_monitor.Prelude.{List, [], if◌then◌else◌, ◌∷◌}
use docker_monitor.Prelude.Bytes.{Bytes, str_eq, text}

abbrev two_ids : Bytes → List Bytes
two_ids s = text "aa" ∷ text "bb" ∷ []

abbrev same_text : Bytes → Bytes
same_text s = s

abbrev only_bb : Bytes → Inspected
only_bb c = if str_eq c (text "bb") then container (text "bbbb") else not_found
