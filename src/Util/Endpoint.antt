-- ===== src/Util/Endpoint.antt =====
-- pkg/util/util.go: the endpoint that the driver listens on.
use Prim.Native.Char.{code}
use Prim.Native.String.{slice}
use dfs_csi.Prelude.{
  ◌≡◌, refl, ap, ◌∙◌, ◌+◌, ◌-◌, Char, String, ◌<>◌, Bool, true, false, ◌&&◌, [], ◌∷◌, ◌==◌, leb,
  arith, starts_with, starts_with-append, if◌then◌else◌,
}
use dfs_csi.Strings.{Chars, chars, text, clean, join_path}
use dfs_csi.System.{System, Failure, Event, Trace, Result, ok, err, is_not_exist}
use dfs_csi.System.Io.{
  Io, Outcome, done, fails, pure, fail, attempt, lift, remove, ◌>>=◌, ◌>>◌, on_result, branch,
}

-- A letter of A to Z in lower case.
abbrev lower : Char → String
lower c =
    let d = code c - 65 in
    if leb 65 (code c) && leb (code c) 90
    then slice "abcdefghijklmnopqrstuvwxyz" d (d + 1)
    else text (c ∷ [])

lower_chars : Chars → String
lower_chars [] = ""
lower_chars (c ∷ s) = lower c <> lower_chars s

-- strings.ToLower. A scheme that url.Parse returns has only ASCII characters.
unfoldable pub to_lower : String → String
unfolding lower_chars
to_lower s = lower_chars (chars s)

module _ (sys : System) where
  -- The branch of a Unix socket.
  unfoldable pub remove_socket : String → Io (Unit {0})
  remove_socket addr = do
    r ← attempt (remove sys addr)
    on_result r (λ _. pure tt)
        (λ e.
          branch (is_not_exist e) (pure tt)
            (fail (Failure.message "could not remove unix domain socket")))

  -- The switch of ParseEndpoint.
  unfoldable pub on_scheme : String → String → Io (String × String)
  unfolding join_path remove_socket
  on_scheme scheme addr = branch (scheme == "tcp") (pure (scheme, addr)) (
      branch (scheme == "unix")
        (do remove_socket (join_path "/" addr); pure (scheme, join_path "/" addr))
        (fail (Failure.message "unsupported protocol")))

  -- ParseEndpoint
  unfoldable pub parse_endpoint : String → Io (String × String)
  unfolding to_lower join_path on_scheme
  parse_endpoint endpoint = do
    r ← attempt (lift (sys.parse_url endpoint))
    on_result r (λ (scheme, host, path). on_scheme (to_lower scheme) (join_path host path))
        (λ e. fail (Failure.message "could not parse endpoint"))

slash :
    (b : Bool) (body other : String)
    → b ≡ true
    → starts_with (if b then "/" <> body else other) "/" ≡ true
slash true body other eq = starts_with-append "/" body
slash false body other eq = absurd (cc)

rooted : (s : String) → starts_with (clean ("/" <> s)) "/" ≡ true
unfolding clean
rooted s = slash (starts_with ("/" <> s) "/") _ _ (starts_with-append "/" s)

joined : (s : String) → starts_with (join_path "/" s) "/" ≡ true
unfolding join_path
joined s = by_test (s == "")
  where
    by_test : (b : Bool) → starts_with (if b then "/" else clean ("/" <> ("/" <> s))) "/" ≡ true
    by_test true = refl
    by_test false = rooted ("/" <> s)

-- How ParseEndpoint of a socket ends, for each answer to the removal of a file.
abbrev pub socket_outcome : String → Result (Unit {0}) → Trace → Outcome (String × String)
socket_outcome addr (ok u) t = done ("unix", addr) (Event.removed_file addr (ok tt) ∷ t)
socket_outcome addr (err e) t =
    let gone = Event.removed_file addr (err e) ∷ t in
    if is_not_exist e
    then done ("unix", addr) gone
    else fails (Failure.message "could not remove unix domain socket") gone

remove_socket_lem :
    (sys : System) (addr : String) (t : Trace) (r : Result (Unit {0}))
    → sys.remove t addr ≡ r
    → (remove_socket sys addr >> pure ("unix", addr)) t ≡ socket_outcome addr r t
unfolding remove_socket remove ◌>>=◌ ◌>>◌
remove_socket_lem sys addr t (ok u) eq = grind arith
remove_socket_lem sys addr t (err e) eq = grind arith

on_unix :
    (sys : System) (addr : String) (t : Trace)
    → on_scheme sys "unix" addr t
      ≡ (remove_socket sys (join_path "/" addr) >> pure ("unix", join_path "/" addr)) t
unfolding on_scheme branch
on_unix sys addr t = refl

parsed_url :
    (sys : System) (endpoint scheme host path : String) (t : Trace)
    → sys.parse_url endpoint ≡ ok (scheme, host, path)
    → parse_endpoint sys endpoint t ≡ on_scheme sys (to_lower scheme) (join_path host path) t
unfolding parse_endpoint attempt lift on_result ◌>>=◌
parsed_url sys endpoint scheme host path t parsed = rw parsed refl

-- ParseEndpoint of an endpoint whose scheme is `unix`, in letters of any case, removes one file, at
-- the path that it returns, which begins with a slash; it fails exactly if the removal fails although
-- the file is there.
pub parse_endpoint-unix :
    (sys : System) (endpoint scheme host path : String) (t : Trace)
    → sys.parse_url endpoint ≡ ok (scheme, host, path)
    → to_lower scheme ≡ "unix"
    → (starts_with (join_path "/" (join_path host path)) "/" ≡ true)
      × (parse_endpoint sys endpoint t
          ≡ socket_outcome
              (join_path "/" (join_path host path))
              (sys.remove t (join_path "/" (join_path host path)))
              t)
parse_endpoint-unix sys endpoint scheme host path t parsed unix = (
  joined (join_path host path),
  parsed_url sys endpoint scheme host path t parsed
      ∙ ap (λ s. on_scheme sys s (join_path host path) t) unix
      ∙ on_unix sys (join_path host path) t
      ∙ remove_socket_lem sys (join_path "/" (join_path host path)) t _ refl,
)
