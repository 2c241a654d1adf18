-- ===== src/Application/Connect.antt =====
-- `connect` of application/MatrixApplication.cpp: the parts of a server address, and that every address
-- is understood as it was meant.
use matrixserver.Common.{
  ℕ, ◌≡◌, refl, [], ◌∷◌, ◌++◌, Option, some, none, Bool, true, false, ◌&&◌, ◌==◌, if◌then◌else◌,
  drop,
}
use matrixserver.Common.Sequences.{All}
use matrixserver.Protocol.{Text, text_eq}

-- Where `connect` connects to.
pub data Target : Type 0 where
  ipc unix : Text → Target
  tcp : Text → Text → Target

abbrev pub colon : ℕ
colon = 58

-- `://`
abbrev pub is_separator : Text → Bool
is_separator (a ∷ b ∷ c ∷ cs) = (a == colon) && (b == 47) && (c == 47)
is_separator (a ∷ b ∷ []) = false
is_separator (a ∷ []) = false
is_separator [] = false

-- What stands before the first `://` and behind it.
unfoldable pub split_scheme : Text → Option (Text × Text)
split_scheme [] = none
split_scheme (c ∷ cs) = elim (is_separator (c ∷ cs)) [
  | true ↦ some ([], drop 3 (c ∷ cs))
  | false ↦ elim (split_scheme cs) [ none ↦ none | some r ↦ some (c ∷ r.0, r.1) ]
]

-- What stands before the last colon and behind it.
unfoldable pub split_port : Text → Option (Text × Text)
split_port [] = none
split_port (c ∷ cs) = elim (split_port cs) [
  | some r ↦ some (c ∷ r.0, r.1)
  | none ↦ if c == colon then some ([], cs) else none
]

-- `ipc`, `tcp` and `unix`
abbrev pub ipc_scheme : Text
ipc_scheme = 105 ∷ 112 ∷ 99 ∷ []

abbrev pub tcp_scheme : Text
tcp_scheme = 116 ∷ 99 ∷ 112 ∷ []

abbrev pub unix_scheme : Text
unix_scheme = 117 ∷ 110 ∷ 105 ∷ 120 ∷ []

unfoldable pub target_of : Text → Text → Option Target
target_of scheme rest =
    if text_eq scheme ipc_scheme
    then some (ipc rest)
    else if text_eq scheme tcp_scheme
    then elim (split_port rest) [ none ↦ none | some r ↦ some (tcp r.0 r.1) ]
    else if text_eq scheme unix_scheme
    then some (unix rest)
    else none

unfoldable pub parse_uri : Text → Option Target
parse_uri uri = elim (split_scheme uri) [ none ↦ none | some r ↦ target_of r.0 r.1 ]

-- Whether the new connection is not dead is an argument.
unfoldable pub connect : (Target → Bool) → Text → Bool
connect is_alive uri = elim (parse_uri uri) [ none ↦ false | some t ↦ is_alive t ]

-- How an address is written.
pub uri_of : Target → Text
uri_of (ipc path) = ipc_scheme ++ (58 ∷ 47 ∷ 47 ∷ []) ++ path
uri_of (unix path) = unix_scheme ++ (58 ∷ 47 ∷ 47 ∷ []) ++ path
uri_of (tcp host port) = tcp_scheme ++ (58 ∷ 47 ∷ 47 ∷ []) ++ (host ++ (colon ∷ port))

-- A port without a colon; the host may have some.
unfoldable pub IsWritable : Target → Type 0
IsWritable (ipc path) = Unit
IsWritable (unix path) = Unit
IsWritable (tcp host port) = All (λ (c : ℕ). (c == colon) ≡ false) port

split_port-none :
    (port : Text) → All (λ (c : ℕ). (c == colon) ≡ false) port → split_port port ≡ none
unfolding split_port
split_port-none [] v = refl
split_port-none (c ∷ cs) v = rw (split_port-none cs v.1, v.0) refl

split_port-append :
    (host port : Text)
    → split_port port ≡ none
    → split_port (host ++ (colon ∷ port)) ≡ some (host, port)
unfolding split_port
split_port-append [] port e = rw e refl
split_port-append (c ∷ host) port e = rw (split_port-append host port e) refl

-- An application that is given the address of a target, whose port has no colon, tries exactly this
-- target: it is connected if the connection is alive.
pub connect-uri_of :
    (is_alive : Target → Bool) (t : Target)
    → IsWritable t
    → connect is_alive (uri_of t) ≡ is_alive t
unfolding connect parse_uri split_scheme target_of uri_of IsWritable
connect-uri_of is_alive (ipc path) v = refl
connect-uri_of is_alive (unix path) v = refl
connect-uri_of is_alive (tcp host port) v =
    rw (split_port-append host port (split_port-none port v), connect) refl
