-- ===== src/Docker/Ssh.antt =====
-- internal/docker/ssh_helper.go: the command line with which ssh starts docker on the other host.
pub mod Reader
mod Tests
use docker_monitor.Prelude.{
  Bool, List, Option, [], if◌then◌else◌, none, not, some, true, ◌&&◌, ◌++◌, ◌==◌, ◌∷◌,
}
use docker_monitor.Prelude.Bytes.{Bytes, is_empty, text}

-- sshSpec
pub record SshSpec : Type 0 where
  pub user : Bytes
  pub host : Bytes
  pub port : Bytes
  pub path : Bytes

-- strings.ReplaceAll(value, "'", `'"'"'`)
abbrev pub escape_quotes : Bytes → Bytes
escape_quotes [] = []
escape_quotes (c ∷ s) =
    let rest = escape_quotes s in if c == b'\'' then text "'\"'\"'" ++ rest else c ∷ rest

-- shellQuote
pub shell_quote : Bytes → Bytes
shell_quote [] = text "''"
shell_quote (c ∷ s) = text "'" ++ escape_quotes (c ∷ s) ++ text "'"

-- shellJoin
pub shell_join : List Bytes → Bytes
unfolding shell_quote
shell_join [] = []
shell_join (p ∷ []) = shell_quote p
shell_join (p ∷ q ∷ parts) = shell_quote p ++ text " " ++ shell_join (q ∷ parts)

-- strings.Trim(socketPath, "/") == ""
abbrev pub only_slashes : Bytes → Bool
only_slashes [] = true
only_slashes (c ∷ s) = c == b'/' && only_slashes s

-- dockerDialStdioArgs
pub docker_dial_stdio_args : Bytes → List Bytes
docker_dial_stdio_args socket_path =
    let stdio = text "system" ∷ text "dial-stdio" ∷ [] in
    if only_slashes socket_path then stdio else (text "--host=unix://" ++ socket_path) ∷ stdio

-- sshSpec.command; `is_number` is whether strconv.Atoi accepts a text, none stands for its error.
pub command : (Bytes → Bool) → SshSpec → Bytes → List Bytes → Option (List Bytes)
unfolding shell_join is_empty
command is_number s remote_cmd remote_args =
    let user = if is_empty s.user then [] else text "-l" ∷ s.user ∷ [] in
    let port = if is_empty s.port then [] else text "-p" ∷ s.port ∷ [] in
    let options =
      text "-o"
      ∷ text "ConnectTimeout=30"
      ∷ text "-o"
      ∷ text "ServerAliveInterval=30"
      ∷ text "-o"
      ∷ text "ServerAliveCountMax=3"
      ∷ text "-T"
      ∷ text "--"
      ∷ s.host
      ∷ [] in
    if not (is_empty s.port) && not (is_number s.port)
    then none
    else some (user ++ port ++ options ++ shell_join (remote_cmd ∷ remote_args) ∷ [])
