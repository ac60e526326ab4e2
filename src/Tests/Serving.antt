-- ===== src/Tests/Serving.antt =====
-- The service and its socket at concrete inputs.
use osmosis_publisher.Prelude.{
  arith, ℕ, Text, codes, List, [], ◌∷◌, ◌++◌, none, some, inl, inr, ◌≡◌, refl, length, drop,
  text_beq,
}
use osmosis_publisher.Types.{Error}
use osmosis_publisher.Socket.{
  Outlet, Service, has_suffix, close_unix_socket, init_unix_socket, with_socket,
  publish_to_unix_socket, publish, configure,
}
use osmosis_publisher.Socket.Connecting.{
  Connects, IsOnlySocket, call_publish, call_configure, call_init, answer, answer_all,
  answer_all-IsOnlySocket,
}
use osmosis_publisher.Socket.Framing.{read_frames}
use osmosis_publisher.Socket.Streaming.{
  Delivers, AreMarshalled, publish_all, publish_all-read_frames,
}

-- The connections that are open, and what was received. Messages are texts.
abbrev Wire : Type 0
Wire = List ℕ × Text

abbrev outlet : Outlet Wire ℕ Text Text
outlet = record {
  dial = λ (open_conns, t) addr. (inl (length addr), (length addr ∷ open_conns, t));
  close_conn = λ (open_conns, t) c. (drop 1 open_conns, t);
  write = λ (open_conns, t) c u. (none, (open_conns, t ++ u));
  marshal = λ m. inl m;
  subject = λ names. codes "synternet.osmosis.tx";
  publish_to = λ n m s. (none, n);
  configure_service = λ n o. ((none, some o), n);
  close_service = λ n. n;
}

dialled_outlet :
    (n : Wire) (addr : Text) (c : ℕ)
    → (outlet.dial n addr).0 ≡ inl c
    → (outlet.dial n addr).1.0 ≡ c ∷ n.0
dialled_outlet n addr c e = cc

not_dialled_outlet :
    (n : Wire) (addr : Text) (h : Error)
    → (outlet.dial n addr).0 ≡ inr h
    → (outlet.dial n addr).1.0 ≡ n.0
not_dialled_outlet n addr h e = cc

abbrev wire : Connects outlet
wire = record {
  conns = λ n. n.0;
  dialled = dialled_outlet;
  not_dialled = not_dialled_outlet;
  closed = λ n c rest e. rw e refl;
  written = λ n c t. refl;
  published = λ n m s. refl;
  configured = λ n o. refl;
  service_closed = λ n. refl;
}

abbrev delivery : Delivers outlet
delivery = record { received = λ n. n.1; written = λ n c t e. refl; published = λ n m s. refl }

abbrev idle : Service ℕ
idle = record { socket = none; socket_addr = [] }

answer_all-IsOnlySocket_example :
    (answer_all outlet
      (call_configure (codes "/a") ∷ call_publish (codes "x") [] ∷ call_init ∷ [])
      (idle, ([], []))).1.0
    ≡ 2 ∷ []
unfolding IsOnlySocket answer_all answer configure publish publish_to_unix_socket with_socket
    init_unix_socket close_unix_socket has_suffix text_beq
answer_all-IsOnlySocket_example =
    answer_all-IsOnlySocket outlet wire
      (call_configure (codes "/a") ∷ call_publish (codes "x") [] ∷ call_init ∷ []) (idle, ([], []))
      refl

publish_all-read_frames_example :
    read_frames 2
      (publish_all outlet []
        (codes "ab" ∷ codes "c" ∷ [])
        (record idle { socket = some 5 }, (5 ∷ [], []))).1.1
    ≡ codes "ab" ∷ codes "c" ∷ []
unfolding has_suffix text_beq AreMarshalled
publish_all-read_frames_example =
    publish_all-read_frames outlet delivery [] 5 refl (λ n t. refl) (codes "ab" ∷ codes "c" ∷ [])
      (codes "ab" ∷ codes "c" ∷ []) (record idle { socket = some 5 }) (5 ∷ [], [])
      (refl, (refl, tt)) (omega arith, (omega arith, tt)) refl refl
