-- ===== src/Docker/Ssh/Tests.antt =====
-- An argument with a quote and a space.
use docker_monitor.Docker.Ssh.{shell_join}
use docker_monitor.Docker.Ssh.Reader.{bare, read-join, read_words}
use docker_monitor.Prelude.{List, [], none, some, ◌∷◌, ◌≡◌}
use docker_monitor.Prelude.Bytes.{Bytes, text}

abbrev parts : List Bytes
parts = text "docker" ∷ text "it's here" ∷ [] ∷ []

read-join_example : read_words bare none (shell_join parts) ≡ some parts
read-join_example = read-join parts
