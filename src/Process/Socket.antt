-- ===== src/Process/Socket.antt =====
-- internal/sockutil/sockutil.go: the daemon's socket. The path is its own small state; what the system's
-- calls refuse is a parameter.
use docker_in_kubernetes.Prelude.{
  ℕ, Bool, true, false, ◌≡◌, refl, ◌⊎◌, inl, inr, Option, none, some, ◌++◌, Text, text,
  Option-cases,
}
use docker_in_kubernetes.Podspec.Ports.{Result, ok, err}

-- What stands at the path: nothing, a socket with its mode, on which the daemon listens or not, or
-- another file.
pub data PathState : Type 0 where
  absent : PathState
  socket : ℕ → Bool → PathState
  file : PathState

-- The errors of Lstat (but that nothing is there), Remove, Listen and Chmod.
pub record SystemErrors : Type 0 where
  pub lstat : Option Text
  pub remove : Option Text
  pub listen : Option Text
  pub chmod : Option Text

-- The mode 0600.
abbrev pub owner_only : ℕ
owner_only = 384

abbrev pub is_file : PathState → Bool
is_file file = true
is_file s = false

module _ (system : SystemErrors) where
  -- From net.Listen on, at a path that is free. Closing the listener removes the socket.
  unfoldable pub bind : Text → PathState × Result {0} Unit
  bind path = elim system.listen [
    | some e ↦ (absent, err (text "listen unix " ++ path ++ text ": " ++ e))
    | none ↦ elim system.chmod [
      | some e ↦ (absent, err (text "chmod socket: " ++ e))
      | none ↦ (socket owner_only true, ok tt)
    ]
  ]

  unfoldable pub replace : Text → PathState → PathState × Result {0} Unit
  unfolding bind
  replace path file = (file, err (text "refusing to remove non-socket file at " ++ path))
  replace path absent = bind path
  replace path (socket mode live) = elim system.remove [
    | some e ↦ (socket mode live, err (text "remove stale socket: " ++ e))
    | none ↦ bind path
  ]

  -- ListenUnix.
  unfoldable pub listen_unix : Text → PathState → PathState × Result {0} Unit
  unfolding replace
  listen_unix path s = elim system.lstat [
    | some e ↦ (s, err (text "stat socket path: " ++ e))
    | none ↦ replace path s
  ]

-- Close of the listener, which unlinks its path; an error of that leaves a socket on which nobody listens.
unfoldable pub close_listener : Option Text → PathState → PathState
close_listener none s = absent
close_listener (some e) (socket mode live) = socket mode false
close_listener (some e) absent = absent
close_listener (some e) file = file

-- What ListenUnix leaves behind: on success a socket that only its owner can open and on which the daemon
-- listens, in place of no other file; on an error, what was there or nothing.
abbrev pub IsBound : PathState → PathState × Result {0} Unit → Type 0
IsBound before (after, ok u) = (after ≡ socket owner_only true) × (is_file before ≡ false)
IsBound before (after, err e) = (after ≡ before) ⊎ ((after ≡ absent) × (is_file before ≡ false))

bind-IsBound :
    (system : SystemErrors) (path : Text) (before : PathState)
    → is_file before ≡ false
    → IsBound before (bind system path)
unfolding bind
bind-IsBound system path before h = elim (Option-cases system.listen) [
  | inr (e, l) ↦ rw (l, bind) (inr (refl, h))
  | inl l ↦ elim (Option-cases system.chmod) [
    | inr (e, c) ↦ rw (l, bind, c) (inr (refl, h))
    | inl c ↦ rw (l, bind, c) (refl, h)
  ]
]

replace-IsBound :
    (system : SystemErrors) (path : Text) (before : PathState)
    → IsBound before (replace system path before)
unfolding replace
replace-IsBound system path file = inl refl
replace-IsBound system path absent = bind-IsBound system path absent refl
replace-IsBound system path (socket mode live) = elim (Option-cases system.remove) [
  | inr (e, r) ↦ rw (r, replace) (inl refl)
  | inl r ↦ rw (r, replace) (bind-IsBound system path (socket mode live) refl)
]

-- Whatever the system's calls refuse, ListenUnix ends with a socket of mode 0600 that the daemon
-- listens on, or with an error, the path as it was, or empty. A file that is no socket is never removed.
pub listen_unix-IsBound :
    (system : SystemErrors) (path : Text) (before : PathState)
    → IsBound before (listen_unix system path before)
unfolding listen_unix
listen_unix-IsBound system path before = elim (Option-cases system.lstat) [
  | inr (e, l) ↦ rw (l, listen_unix) (inl refl)
  | inl l ↦ rw (l, listen_unix) (replace-IsBound system path before)
]
