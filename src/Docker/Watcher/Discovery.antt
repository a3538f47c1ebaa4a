-- ===== src/Docker/Watcher/Discovery.antt =====
-- internal/docker/watcher.go: which containers are watched, and which one replaces another.
pub mod Chosen
pub mod Replaced
mod Tests
use docker_monitor.Model.{ContainerInfo}
use docker_monitor.Prelude.{
  Bool, List, Option, [], any, false, if◌then◌else◌, none, not, some, true, ◌&&◌, ◌==◌, ◌||◌, ◌∷◌,
}
use docker_monitor.Prelude.Bytes.{Bytes, is_empty, str_eq, text}
use docker_monitor.Prelude.Bytes.Space.{trim_space}

pub record ContainerSummary : Type 0 where
  pub id : Bytes
  pub names : List Bytes

pub record ContainerState : Type 0 where
  pub status : Bytes
  pub running : Bool
  pub restarting : Bool

-- strings.TrimPrefix(name, "/")
abbrev pub trim_slash : Bytes → Bytes
trim_slash [] = []
trim_slash (c ∷ s) = if c == b'/' then s else c ∷ s

-- `match_path` is filepath.Match of a pattern and a name, none where it answers an error.
module _ (match_path : Bytes → Bytes → Option Bool) where
  abbrev pub is_match : Option Bool → Bool
  is_match none = false
  is_match (some b) = b

  -- MatchAny
  unfoldable pub match_any : Bytes → List Bytes → Bool
  unfolding is_empty
  match_any name [] = false
  match_any name (pattern_text ∷ patterns) =
      (not (is_empty pattern_text) && is_match (match_path pattern_text name))
      || match_any name patterns

  abbrev pub select_name : Bytes → List Bytes → List Bytes → Option ContainerInfo
  select_name id [] patterns = none
  select_name id (name ∷ names) patterns =
      let later = select_name id names patterns in
      if match_any (trim_slash name) patterns
      then some (record { id = id; name = trim_slash name })
      else later

  -- selectContainer
  unfoldable pub select_container : ContainerSummary → List Bytes → Option ContainerInfo
  unfolding match_any
  select_container summary patterns = select_name summary.id summary.names patterns

-- isLiveReplacement; `to_lower` is strings.ToLower.
unfoldable pub is_live_replacement : (Bytes → Bytes) → ContainerState → Bool
unfolding trim_space str_eq
is_live_replacement to_lower state =
    let status = to_lower (trim_space state.status) in
    state.running
    || state.restarting
    || any (str_eq status)
        (text "running" ∷ text "restarting" ∷ text "created" ∷ text "paused" ∷ [])

-- findReplacementContainer. `inspect` is none where the client cannot inspect; its answer is none on
-- every error, after which the loop goes on. An empty list stands for a failed listing too.
module _ (to_lower : Bytes → Bytes) (inspect : Option (Bytes → Option ContainerState)) where
  abbrev pub is_live : Option ContainerState → Bool
  is_live none = false
  is_live (some state) = is_live_replacement to_lower state

  abbrev pub accepts : Option (Bytes → Option ContainerState) → Bytes → Bool
  accepts none id = true
  accepts (some ask) id = is_live (ask id)

  unfoldable pub find_replacement_container :
      List ContainerSummary → Bytes → Bytes → Option ContainerInfo
  unfolding is_live_replacement str_eq
  find_replacement_container [] name current_id = none
  find_replacement_container (summary ∷ containers) name current_id =
      let later = find_replacement_container containers name current_id in
      let matched = any (λ candidate. str_eq (trim_slash candidate) name) summary.names in
      if str_eq summary.id current_id
      then later
      else if not matched
      then later
      else if accepts inspect summary.id
      then some (record { id = summary.id; name = name })
      else later
