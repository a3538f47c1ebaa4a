-- ===== src/Docker/OwnContainer.antt =====
-- internal/docker/self.go: which container the monitor itself runs in.
pub mod Candidates
mod Tests
use docker_monitor.Prelude.{List, [], any, if◌then◌else◌, ◌++◌, ◌||◌, ◌∷◌}
use docker_monitor.Prelude.Bytes.{Bytes, is_empty, str_eq}
use docker_monitor.Prelude.Bytes.Space.{trim_space}

-- What ContainerInspect answers, as isContainerNotFound tells errors apart.
pub data Inspected : Type 0 where
  container : Bytes → Inspected
  not_found : Inspected
  failed : Bytes → Inspected

-- The result of detectSelfContainerID: an id, which may be empty, or an error.
pub data Detected : Type 0 where
  detected : Bytes → Detected
  gave_up : Bytes → Detected

unfoldable pub detect_self_container_id : (Bytes → Inspected) → List Bytes → Detected
unfolding trim_space is_empty
detect_self_container_id inspect [] = detected []
detect_self_container_id inspect (candidate ∷ candidates) =
    let later = detect_self_container_id inspect candidates in
    elim (inspect candidate) [
      | container id ↦ if is_empty (trim_space id) then later else detected (trim_space id)
      | not_found ↦ later
      | failed err ↦ gave_up err
    ]

-- `to_lower` is strings.ToLower, `find_ids` the matches of containerIDPattern.
module _ (to_lower : Bytes → Bytes) (find_ids : Bytes → List Bytes) where
  -- The closure appendCandidate; `seen` holds the candidates.
  abbrev pub append_candidate : Bytes → List Bytes → List Bytes
  append_candidate value candidates =
      let lower = to_lower (trim_space value) in
      if is_empty (trim_space value) || any (λ c. str_eq c lower) candidates
      then candidates
      else candidates ++ lower ∷ []

  abbrev pub append_each : List Bytes → List Bytes → List Bytes
  append_each [] candidates = candidates
  append_each (v ∷ vs) candidates = append_each vs (append_candidate v candidates)

  unfoldable pub self_container_id_candidates_from : Bytes → Bytes → List Bytes
  unfolding trim_space is_empty str_eq
  self_container_id_candidates_from hostname cgroup =
      append_each (find_ids cgroup) (append_candidate hostname [])
