-- ===== src/Network/Socket.antt =====
-- create_socket and close_socket of src/client/network.c. The system calls are the kernel's: each
-- takes its state and returns the next one with the answer, where `none` or false is an error. What
-- socket is given by way of htons it takes here as it is.
use rmtdos.Base.{
  ℕ, ◌<◌, ◌≡◌, Option, none, some, List, [], ◌∷◌, ◌==◌, if◌then◌else◌, Bool, true, false, length,
  take, replicate,
}
use rmtdos.Network.{RawSocket}

pub record Kernel (W : Type 0) : Type 0 where
  pub getrandom : W → W × ℕ
  pub socket : W → (protocol : ℕ) → W × Option ℕ
  pub get_index : W → (fd : ℕ) → List ℕ → W × Option ℕ
  pub get_hwaddr : W → (fd : ℕ) → List ℕ → W × Option (List ℕ)
  pub bind_to_device : W → (fd : ℕ) → List ℕ → W × Bool
  pub close : W → (fd : ℕ) → W
  pub epoll_create1 : W → W × Option ℕ
  pub epoll_ctl_add : W → (epoll_fd fd : ℕ) → W × Bool

-- Descriptors, with one that was just opened in front.
abbrev pub opening : Option ℕ → List ℕ → List ℕ
opening none fds = fds
opening (some fd) fds = fd ∷ fds

abbrev pub erase : ℕ → List ℕ → List ℕ
erase fd [] = []
erase fd (x ∷ xs) = if x == fd then xs else x ∷ erase fd xs

-- What the calls do to the open descriptors of the process, and the ranges of their answers:
-- `sa_data` has 14 bytes, and getrandom fills four.
pub record IsKernel {W : Type 0} (k : Kernel W) (opened : W → List ℕ) : Type 0 where
  pub random : (w : W) → opened (k.getrandom w).0 ≡ opened w
  pub random_fits : (w : W) → (k.getrandom w).1 < 4294967296
  pub opens : (w : W) (p : ℕ) → opened (k.socket w p).0 ≡ opening (k.socket w p).1 (opened w)
  pub index : (w : W) (fd : ℕ) (name : List ℕ) → opened (k.get_index w fd name).0 ≡ opened w
  pub hwaddr : (w : W) (fd : ℕ) (name : List ℕ) → opened (k.get_hwaddr w fd name).0 ≡ opened w
  pub hwaddr_len :
      (w : W) (fd : ℕ) (name sa_data : List ℕ)
      → (k.get_hwaddr w fd name).1 ≡ some sa_data
      → length sa_data ≡ 14
  pub binds : (w : W) (fd : ℕ) (name : List ℕ) → opened (k.bind_to_device w fd name).0 ≡ opened w
  pub closes : (w : W) (fd : ℕ) → opened (k.close w fd) ≡ erase fd (opened w)
  pub creates : (w : W) → opened (k.epoll_create1 w).0 ≡ opening (k.epoll_create1 w).1 (opened w)
  pub adds : (w : W) (e fd : ℕ) → opened (k.epoll_ctl_add w e fd).0 ≡ opened w

-- What strncpy keeps of a name, and setsockopt reads: IFNAMSIZ - 1 characters at most.
abbrev pub if_name_len : ℕ
if_name_len = 15

module _ {W : Type 0} (k : Kernel W) where
  -- The test on `sock_fd` is in the case of the helper.
  unfoldable pub close_fd : W → Option ℕ → W
  close_fd w none = w
  close_fd w (some fd) = k.close w fd

  unfoldable pub close_socket : W → RawSocket → W × RawSocket
  unfolding close_fd
  close_socket w sock = (close_fd w sock.sock_fd, record sock { sock_fd = none })

  -- The label `fail` does the same.
  unfoldable pub failed : W → RawSocket → W × RawSocket × Option ℕ
  unfolding close_socket
  failed w rs = let (w', rs') = close_socket w rs in (w', rs', none)

  -- Each step is given the answer to the call before it.
  unfoldable pub after_bind : (fd : ℕ) → W → RawSocket → Bool → W × RawSocket × Option ℕ
  unfolding failed
  after_bind fd w rs true = (w, rs, rs.sock_fd)
  after_bind fd w rs false = failed w rs

  unfoldable pub after_hwaddr :
      (fd : ℕ) → W → RawSocket → Option (List ℕ) → W × RawSocket × Option ℕ
  unfolding after_bind
  after_hwaddr fd w rs none = failed w rs
  after_hwaddr fd w rs (some sa_data) =
      let (w', done) = k.bind_to_device w fd (take if_name_len rs.if_name) in
      after_bind fd w' (record rs { if_addr = take 6 sa_data }) done

  unfoldable pub after_index : (fd : ℕ) → W → RawSocket → Option ℕ → W × RawSocket × Option ℕ
  unfolding after_hwaddr
  after_index fd w rs none = failed w rs
  after_index fd w rs (some index) =
      let (w', sa_data) = k.get_hwaddr w fd (take if_name_len rs.if_name) in
      after_hwaddr fd w' (record rs { if_index = index }) sa_data

  unfoldable pub after_socket : W → RawSocket → Option ℕ → W × RawSocket × Option ℕ
  unfolding after_index
  after_socket w rs none = failed w rs
  after_socket w rs (some fd) =
      let (w', index) = k.get_index w fd (take if_name_len rs.if_name) in
      after_index fd w' (record rs { sock_fd = some fd }) index

  -- The structure that `result` points at, and the returned value, `none` for a negative one.
  unfoldable pub create_socket : W → (if_name : List ℕ) → (ethertype : ℕ) → W × RawSocket × Option ℕ
  unfolding after_socket
  create_socket w if_name ethertype =
      let (w1, session_id) = k.getrandom w in
      let (w2, fd) = k.socket w1 ethertype in
      after_socket w2
        (record {
          sock_fd = none;
          if_name = if_name;
          if_index = 0;
          if_addr = replicate 6 0;
          ethertype = ethertype;
          session_id = session_id;
        })
        fd
