-- ===== src/Tests/Kernels.antt =====
-- The start of the client on a kernel whose state is the list of open descriptors.
use rmtdos.Base.{
  ℕ, ◌≡◌, refl, Option, none, some, List, [], ◌∷◌, arith, true, false, inl, codes, replicate,
  length, subst,
}
use rmtdos.Base.Memory.{zeros}
use rmtdos.Network.Socket.{Kernel, IsKernel, erase, create_socket}
use rmtdos.Network.Opened.{Created, create_socket-Created}
use rmtdos.Client.{Client}
use rmtdos.Client.Events.{on_stdin}
use rmtdos.Client.Start.{Round, interrupted, ready, left, main_loop, main}
use rmtdos.Client.Start.Ends.{Ends, client_main-Ends}
use rmtdos.Client.Start.Runs.{SomeRound}
use rmtdos.Client.Start.Leaves.{exit_key_leaves}
use rmtdos.Tests.Packets.{socket}
use rmtdos.Tests.Keymaps.{client}

-- The second ioctl fails for a name of no character.
abbrev hwaddr_of : List ℕ → Option (List ℕ)
hwaddr_of [] = none
hwaddr_of (c ∷ name) = some (replicate 14 c)

abbrev kernel : Kernel (List ℕ)
kernel = record {
  getrandom = λ w. (w, 7);
  socket = λ w p. (3 ∷ w, some 3);
  get_index = λ w fd name. (w, some 2);
  get_hwaddr = λ w fd name. (w, hwaddr_of name);
  bind_to_device = λ w fd name. (w, true);
  close = λ w fd. erase fd w;
  epoll_create1 = λ w. (4 ∷ w, some 4);
  epoll_ctl_add = λ w e fd. (w, true);
}

fourteen : (name sa_data : List ℕ) → hwaddr_of name ≡ some sa_data → length sa_data ≡ 14
fourteen [] sa_data h = cc
fourteen (c ∷ name) sa_data h =
    let same : replicate 14 c ≡ sa_data = cc in subst (λ l. length l ≡ 14) same refl

kernel-IsKernel : IsKernel kernel (λ w. w)
kernel-IsKernel = record {
  random = λ w. refl;
  random_fits = λ w. omega arith;
  opens = λ w p. refl;
  index = λ w fd name. refl;
  hwaddr = λ w fd name. refl;
  hwaddr_len = λ w fd name. fourteen name;
  binds = λ w fd name. refl;
  closes = λ w fd. refl;
  creates = λ w. refl;
  adds = λ w e fd. refl;
}

create_socket-Created_example :
    Created kernel (λ w. w) (0 ∷ []) 0x80ab (create_socket kernel (0 ∷ []) (codes "eth0") 0x80ab)
create_socket-Created_example =
    create_socket-Created kernel (λ w. w) (0 ∷ []) (codes "eth0") 0x80ab kernel-IsKernel
      (omega arith)

-- No option, an empty keymap, and ESC in the second round.
abbrev rounds : List Round
rounds = interrupted ∷ ready 5 (on_stdin (27 ∷ []) ∷ []) ∷ []

client_main-Ends_example :
    Ends
      (λ w. w)
      (0 ∷ [])
      (SomeRound rounds)
      (main kernel 276 zeros
        (λ name. some [])
        true
        256
        65536
        rounds
        (λ l. true)
        (λ l. 5)
        (λ c. some (c ∷ []))
        (0 ∷ [])
        none
        []
        false)
client_main-Ends_example =
    client_main-Ends kernel (λ w. w) 276 zeros (λ name. some []) true 256 65536 rounds (λ l. true)
      (λ l. 5) (λ c. some (c ∷ [])) (0 ∷ []) none [] false kernel-IsKernel (λ l. omega arith)

exit_key_leaves_example :
    (c' : Client) × (c'.running ≡ false)
    × ((rounds : List Round)
        → main_loop 276 socket zeros none client (ready 5 (on_stdin (27 ∷ []) ∷ []) ∷ rounds)
          ≡ left c')
exit_key_leaves_example =
    exit_key_leaves 276 socket zeros none 5 27 [] client (λ i active. cc) refl (inl (refl, refl))
