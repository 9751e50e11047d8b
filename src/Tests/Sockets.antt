-- ===== src/Tests/Sockets.antt =====
-- Sockets that touch nothing, and sockets over a table of descriptors.
use aws_kms_demo.Base.{txt, ok, err, List, [], ◌∷◌, ◌≡◌, refl, ap, true}
use aws_kms_demo.Text.Number.{ℤ, pos, negsuc}
use aws_kms_demo.Endpoint.{vsock}
use aws_kms_demo.Sockets.Linux.{Os, sockaddr, linux, vsock_listener, file, tcp_stream}
use aws_kms_demo.Sockets.{connect_endpoint, listen_endpoint, accept, try_clone_stream}
use aws_kms_demo.Sockets.Descriptors.{IsDescriptorTable, sockets-Balanced}

-- Every peer has the CID 16.
abbrev pub still_os : {W : Type 0} → Os W
still_os = record {
  socket = λ domain type_ protocol w. (pos 3, w);
  connect = λ fd addr len w. (pos 0, w);
  bind = λ fd addr len w. (pos 0, w);
  listen = λ fd backlog w. (pos 0, w);
  accept = λ fd addr len w. (pos 4, sockaddr 16 5000, w);
  last_os_error = λ w. txt "error";
  close = λ fd w. w;
  tcp_connect = λ addr w. (ok (pos 3), w);
  tcp_bind = λ addr w. (ok (pos 3), w);
  tcp_accept = λ fd w. (ok (pos 4), w);
  try_clone = λ fd w. (ok (pos 5), w);
}

abbrev without_latest : List ℤ → List ℤ
without_latest [] = []
without_latest (fd ∷ rest) = rest

-- The world is the table; connecting fails.
abbrev table_os : Os (List ℤ)
table_os = record {
  socket = λ domain type_ protocol w. (pos 3, pos 3 ∷ w);
  connect = λ fd addr len w. (negsuc 0, w);
  bind = λ fd addr len w. (pos 0, w);
  listen = λ fd backlog w. (pos 0, w);
  accept = λ fd addr len w. (pos 4, sockaddr 16 5000, pos 4 ∷ w);
  last_os_error = λ w. txt "error";
  close = λ fd w. without_latest w;
  tcp_connect = λ addr w. (err (txt "refused"), w);
  tcp_bind = λ addr w. (ok (pos 3), pos 3 ∷ w);
  tcp_accept = λ fd w. (ok (pos 4), pos 4 ∷ w);
  try_clone = λ fd w. (ok (pos 5), pos 5 ∷ w);
}

table_os-IsDescriptorTable : IsDescriptorTable table_os (λ w. w)
table_os-IsDescriptorTable = record {
  socket_opens = λ domain type_ protocol w. refl;
  connect_keeps = λ fd addr len w. refl;
  bind_keeps = λ fd addr len w. refl;
  listen_keeps = λ fd backlog w. refl;
  accept_opens = λ fd addr len w. refl;
  close_latest = λ fd rest w opened. ap without_latest opened;
  tcp_connect_opens = λ addr w. refl;
  tcp_bind_opens = λ addr w. refl;
  tcp_accept_opens = λ fd w. refl;
  try_clone_opens = λ fd w. refl;
}

failed_connect : connect_endpoint table_os true (vsock 3 8000) [] ≡ (err (txt "error"), [])
unfolding connect_endpoint aws_kms_demo.Sockets.Linux.connect_vsock
failed_connect = refl

sockets-Balanced_example :
    ((connect_endpoint table_os true (vsock 3 8000) []).1 ≡ [])
    × ((listen_endpoint table_os true (vsock 0 8000) []).1 ≡ pos 3 ∷ [])
    × ((accept table_os true (vsock_listener (linux (pos 3))) []).1 ≡ pos 4 ∷ [])
    × ((try_clone_stream table_os true (file (pos 3)) []).1 ≡ pos 5 ∷ [])
unfolding connect_endpoint aws_kms_demo.Sockets.Linux.connect_vsock listen_endpoint accept
    aws_kms_demo.Sockets.Linux.listen_vsock aws_kms_demo.Sockets.Linux.accept_vsock try_clone_stream
sockets-Balanced_example =
    sockets-Balanced table_os (λ w. w) table_os-IsDescriptorTable true (vsock 3 8000)
      (vsock_listener (linux (pos 3))) (file (pos 3)) []
