-- ===== src/Http.antt =====
-- The HTTP server, semestral_project/src/server_http.c: the answer to one client, and the task that
-- accepts the clients. The system calls that are made are a list, in their order; what they answer
-- is an input.
pub mod Descriptors
mod Tests
use ctu_real_time_systems_pr.Base.{
  Bool, List, Option, [], false, if◌then◌else◌, length, ltb, none, some, true, ℕ, ◌&&◌, ◌+◌, ◌==◌,
  ◌∷◌,
}

-- A system call, with the descriptor that it is about; `page` is the printing of the header, the
-- plots and the closing tags, which may never end.
pub data Call : Type 0 where
  socket : Call
  bind listen accept recv fdopen page fclose close : ℕ → Call
  task_spawn : ℕ → ℕ → Call  -- the number in the name of the task, and its client

-- "GET / "
abbrev pub get_root : List ℕ
get_root = b'G' ∷ b'E' ∷ b'T' ∷ b' ' ∷ b'/' ∷ b' ' ∷ []

-- strncmp of a text with a prefix that has no NUL
abbrev pub starts_with : List ℕ → List ℕ → Bool
starts_with [] bytes = true
starts_with (p ∷ ps) [] = false
starts_with (p ∷ ps) (b ∷ bytes) = (b == p) && starts_with ps bytes

-- What recv answers: an error, or the bytes of a message, none if the client has left.
pub data Received : Type 0 where
  failed : Received
  message : List ℕ → Received

-- The request is answered.
unfoldable pub is_served : List ℕ → Bool
is_served bytes = ltb 5 (length bytes) && starts_with get_root bytes

-- What becomes of the stream for the page: fdopen fails, and then fprintf on a null pointer has no
-- meaning; the printing of the page never ends; or it ends.
pub data Stream : Type 0 where
  no_stream endless finished : Stream

-- The branch that answers, as far as it comes, and the close behind it.
unfoldable pub answer_client : ℕ → Stream → List Call
answer_client client_fd no_stream = fdopen client_fd ∷ []
answer_client client_fd endless = fdopen client_fd ∷ page client_fd ∷ []
answer_client client_fd finished =
    fdopen client_fd ∷ page client_fd ∷ fclose client_fd ∷ close client_fd ∷ []

-- `one_client_server`
pub one_client_server : ℕ → Stream → Received → List Call
unfolding answer_client
one_client_server client_fd f failed = recv client_fd ∷ close client_fd ∷ []
one_client_server client_fd f (message bytes) =
    recv client_fd ∷ (if is_served bytes then answer_client client_fd f else close client_fd ∷ [])

-- A round of the loop: accept fails, or it gives a client, for which taskSpawn succeeds or not.
pub data Round : Type 0 where
  refused : Round
  accepted : ℕ → Bool → Round

-- The loop of `run_http_srv`, with the number of the next client; it waits where no round is left.
pub serve_loop : ℕ → ℕ → List Round → List Call
serve_loop s client_num [] = []
serve_loop s client_num (refused ∷ rounds) = accept s ∷ close s ∷ []
serve_loop s client_num (accepted new_fd true ∷ rounds) =
    accept s ∷ task_spawn client_num new_fd ∷ serve_loop s (client_num + 1) rounds
serve_loop s client_num (accepted new_fd false ∷ rounds) =
    accept s ∷ task_spawn client_num new_fd ∷ close s ∷ close new_fd ∷ []

-- What the first calls answer: the descriptor of the socket, if there is one.
pub record Opening : Type 0 where
  pub socket_fd : Option ℕ
  pub bind_fails : Bool
  pub listen_fails : Bool

-- `run_http_srv`
pub run_http_srv : Opening → List Round → List Call
unfolding serve_loop
run_http_srv k rounds = elim k.socket_fd [
  | none ↦ socket ∷ []
  | some s ↦
      socket
      ∷ bind s
      ∷ (if k.bind_fails
          then []
          else listen s ∷ (if k.listen_fails then close s ∷ [] else serve_loop s 0 rounds))
]
