-- ===== src/Http/Descriptors.antt =====
-- Who closes the descriptors in semestral_project/src/server_http.c.
use ctu_real_time_systems_pr.Base.{
  Bool, List, [], arith, false, if◌then◌else◌, length, map, none, pos, refl, some, total, true, ℕ,
  ◌&&◌, ◌+◌, ◌<◌, ◌==◌, ◌||◌, ◌∙◌, ◌∷◌, ◌≡◌, ◌≢◌, ◌≤◌,
}
use ctu_real_time_systems_pr.Http.{
  Call, Received, message, failed, close, fclose, page, Stream, no_stream, endless, finished,
  one_client_server, is_served, starts_with, get_root, Round, refused, accepted, Opening,
  run_http_srv, serve_loop,
}
use ctu_real_time_systems_pr.History.{History}
use ctu_real_time_systems_pr.History.Window.{IsValid, shown}
use ctu_real_time_systems_pr.Svg.{Piece}
use ctu_real_time_systems_pr.Svg.Extremes.{IsExtremes}
use ctu_real_time_systems_pr.Svg.Page.{html_page}
use ctu_real_time_systems_pr.Svg.Page.Hang.{generate_html_file-hangs}
use ctu_real_time_systems_pr.Svg.Page.WellFormed.{IsDrawable, html_page-IsClosed}

-- How often a descriptor is closed by a call, and how often the page is printed.
abbrev pub closed : ℕ → Call → ℕ
closed fd (close k) = if k == fd then 1 else 0
closed fd (fclose k) = if k == fd then 1 else 0
closed fd _ = 0

abbrev pub printed : Call → ℕ
printed (page k) = 1
printed _ = 0

abbrev pub is_answered : Received → Bool
is_answered failed = false
is_answered (message bytes) = is_served bytes

total-end : (f : Call → ℕ) (c : Call) → total f (c ∷ []) ≡ f c
unfolding total
total-end f c = omega arith

-- How often the descriptor of a client is closed.
abbrev pub closings : Bool → Stream → ℕ
closings false f = 1
closings true finished = 2
closings true _ = 0

-- Whatever a client sends, its descriptor is closed once where it is not answered. Where it is, the
-- descriptor is closed twice if the stream opens and the page comes to its end, since fclose has closed it
-- already when close is called; and never, if the page does not end or there is no stream.
pub closed_lem :
    (fd : ℕ) (f : Stream) (r : Received)
    → total (closed fd) (one_client_server fd f r) ≡ closings (is_answered r) f
unfolding one_client_server total
closed_lem fd f failed = ground arith
closed_lem fd no_stream (message bytes) = ground arith
closed_lem fd endless (message bytes) = ground arith
closed_lem fd finished (message bytes) = ground arith

-- The stream of a client for a history, if fdopen succeeds: what is printed ends with some fuel, or with
-- none.
abbrev pub Comes : History → Stream → Type 0
Comes h no_stream = ⊥
Comes h endless = (fuel : ℕ) → html_page fuel h ≡ none
Comes h finished = (fuel : ℕ) × (ps : List Piece) × (html_page fuel h ≡ some ps)

-- A client that is answered while the history can be drawn gets the whole page, and its descriptor is
-- closed twice.
drawable_closed :
    (fd : ℕ) (f : Stream) (bytes : List ℕ) (h : History)
    → Comes h f
    → is_served bytes ≡ true
    → IsValid h
    → IsDrawable (shown h)
    → total (closed fd) (one_client_server fd f (message bytes)) ≡ 2
drawable_closed fd no_stream bytes h comes served valid d = absurd comes
drawable_closed fd endless bytes h comes served valid d =
    let (ps, e, _) = html_page-IsClosed 34 h (omega arith) valid d in cc (e, comes 34)
drawable_closed fd finished bytes h comes served valid d =
    closed_lem fd finished (message bytes) ∙ rw served refl

-- A client that is answered while the plots of the history are never finished is never closed.
hanging_open :
    (fd n : ℕ) (f : Stream) (bytes : List ℕ) (h : History)
    → Comes h f
    → is_served bytes ≡ true
    → IsValid h
    → 2097152 ≤ n
    → n < 4194304
    → IsExtremes (pos n) (pos (n + 1)) (map (λ r. r.actual) (shown h))
    → total (closed fd) (one_client_server fd f (message bytes)) ≡ 0
unfolding html_page
hanging_open fd n no_stream bytes h comes served valid above below found = absurd comes
hanging_open fd n endless bytes h comes served valid above below found =
    closed_lem fd endless (message bytes) ∙ rw served refl
hanging_open fd n finished bytes h (fuel, ps, e) served valid above below found =
    absurd (none≢some (rw (generate_html_file-hangs n above below h valid found fuel) at e))
  where
    none≢some : {ps : List Piece} → none ≡ some ps → ⊥
    none≢some e = cc

starts_with-length : (ps bytes : List ℕ) → starts_with ps bytes ≡ true → length ps ≤ length bytes
starts_with-length [] bytes h = omega arith
starts_with-length (p ∷ ps) [] h = absurd (ground arith)
starts_with-length (p ∷ ps) (b ∷ bytes) h =
    omega (arith, starts_with-length ps bytes (and_right _ _ h))
  where
    and_right : (x y : Bool) → (x && y) ≡ true → y ≡ true
    and_right x y e = ground arith

-- The test of the size changes nothing.
is_served_lem : (bytes : List ℕ) → is_served bytes ≡ starts_with get_root bytes
unfolding is_served
is_served_lem bytes = ground (arith, starts_with-length get_root bytes)

abbrev pub opens : Stream → Bool
opens no_stream = false
opens _ = true

-- The printing of the page is begun once for a message that begins with "GET / ", where the stream
-- opens, and for no other.
printed_root :
    (fd : ℕ) (f : Stream) (bytes : List ℕ)
    → total printed (one_client_server fd f (message bytes))
      ≡ (if starts_with get_root bytes && opens f then 1 else 0)
unfolding one_client_server total
printed_root fd no_stream bytes = rw (is_served_lem bytes) (ground arith)
printed_root fd endless bytes = rw (is_served_lem bytes) (ground arith)
printed_root fd finished bytes = rw (is_served_lem bytes) (ground arith)

-- The rounds give clients with other descriptors than the server's.
abbrev pub AreOthers : ℕ → List Round → Type 0
AreOthers s [] = Unit {0}
AreOthers s (refused ∷ rounds) = AreOthers s rounds
AreOthers s (accepted fd b ∷ rounds) = (fd ≢ s) × AreOthers s rounds

-- Some round ends the loop.
abbrev pub ends : List Round → Bool
ends [] = false
ends (refused ∷ rounds) = true
ends (accepted fd false ∷ rounds) = true
ends (accepted fd true ∷ rounds) = ends rounds

serve_loop-closed :
    (s n : ℕ) (rounds : List Round)
    → AreOthers s rounds
    → total (closed s) (serve_loop s n rounds) ≡ (if ends rounds then 1 else 0)
unfolding serve_loop total
serve_loop-closed s n [] h = refl
serve_loop-closed s n (refused ∷ rounds) h = ground arith
serve_loop-closed s n (accepted fd true ∷ rounds) h =
    omega (arith, serve_loop-closed s (n + 1) rounds h.1)
serve_loop-closed s n (accepted fd false ∷ rounds) h = ground arith

-- If no client has the descriptor of the server, the server closes its socket exactly once when
-- it ends, by a failure of listen, of accept or of taskSpawn, and never while it runs; but
-- where bind fails, it ends and leaves the socket open.
pub run_http_srv-closed :
    (k : Opening) (s : ℕ) (rounds : List Round)
    → k.socket_fd ≡ some s
    → AreOthers s rounds
    → total (closed s) (run_http_srv k rounds)
      ≡ (if k.bind_fails then 0 else (if k.listen_fails || ends rounds then 1 else 0))
unfolding run_http_srv total
run_http_srv-closed k s rounds e h = rw e (ground (arith, serve_loop-closed s 0 rounds h))
