-- ===== src/Http/Tests.antt =====
-- The theorems on the HTTP server at inputs that meet their hypotheses.
use ctu_real_time_systems_pr.Base.{
  [], arith, false, if◌then◌else◌, refl, some, total, true, ◌||◌, ◌∷◌, ◌≡◌,
}
use ctu_real_time_systems_pr.Http.{
  message, finished, get_root, one_client_server, run_http_srv, Opening, accepted, refused,
}
use ctu_real_time_systems_pr.Http.Descriptors.{
  closed, closings, is_answered, ends, closed_lem, run_http_srv-closed,
}

closed_lem_example :
    total (closed 8) (one_client_server 8 finished (message get_root))
    ≡ closings (is_answered (message get_root)) finished
closed_lem_example = closed_lem 8 finished (message get_root)

abbrev opening : Opening
opening = record { socket_fd = some 7; bind_fails = false; listen_fails = false }

run_http_srv-closed_example :
    total (closed 7) (run_http_srv opening (accepted 8 true ∷ refused ∷ [])) ≡ (
      if opening.bind_fails
      then 0
      else (if opening.listen_fails || ends (accepted 8 true ∷ refused ∷ []) then 1 else 0))
run_http_srv-closed_example =
    run_http_srv-closed opening 7 (accepted 8 true ∷ refused ∷ []) refl (omega arith, tt)
