-- ===== src/Network/Opened.antt =====
-- What create_socket of src/client/network.c leaves open.
use rmtdos.Base.{
  ℕ, ◌<◌, ◌≡◌, refl, ap, ◌∙◌, Option, none, some, List, [], ◌∷◌, ◌⊎◌, inl, inr, Bool, true, false,
  arith, length, take,
}
use rmtdos.Network.{RawSocket}
use rmtdos.Network.Frame.{IsValid}
use rmtdos.Network.Socket.{
  Kernel, IsKernel, opening, erase, close_fd, close_socket, failed, after_bind, after_hwaddr,
  after_index, after_socket, create_socket,
}

pub erase_head : (fd : ℕ) (fds : List ℕ) → erase fd (fd ∷ fds) ≡ fds
erase_head fd fds = ground arith

six_of : (sa_data : List ℕ) → length sa_data ≡ 14 → length (take 6 sa_data) ≡ 6
six_of (a ∷ b ∷ c ∷ d ∷ e ∷ f ∷ r) len = refl
six_of [] len = absurd (omega arith)
six_of (a ∷ []) len = absurd (omega arith)
six_of (a ∷ b ∷ []) len = absurd (omega arith)
six_of (a ∷ b ∷ c ∷ []) len = absurd (omega arith)
six_of (a ∷ b ∷ c ∷ d ∷ []) len = absurd (omega arith)
six_of (a ∷ b ∷ c ∷ d ∷ e ∷ []) len = absurd (omega arith)

module _ {W : Type 0} (k : Kernel W) (opened : W → List ℕ) (fds : List ℕ) (ethertype : ℕ) where
  -- Either one descriptor more is open, the one of a socket that is ready, or none and there is no socket.
  abbrev pub Created : W × RawSocket × Option ℕ → Type 0
  Created (w, rs, r) =
      ((fd : ℕ) × (r ≡ some fd)
        × (rs.sock_fd ≡ some fd)
        × (opened w ≡ fd ∷ fds)
        × IsValid rs
        × (rs.ethertype ≡ ethertype)
        × (opened (close_socket k w rs).0 ≡ fds))
      ⊎ ((r ≡ none) × (rs.sock_fd ≡ none) × (opened w ≡ fds))

module _ {W : Type 0} (k : Kernel W) (opened : W → List ℕ) (ok : IsKernel k opened) (fds : List ℕ)
    (ethertype : ℕ) where
  closed :
      (fd : ℕ) (w : W) (rs : RawSocket)
      → rs.sock_fd ≡ some fd
      → opened w ≡ fd ∷ fds
      → opened (close_socket k w rs).0 ≡ fds
  unfolding close_socket close_fd
  closed fd w rs at held =
      ap (λ o. opened (close_fd k w o)) at
      ∙ (ok.closes w fd ∙ (ap (erase fd) held ∙ erase_head fd fds))

  failed-Created :
      (fd : ℕ) (w : W) (rs : RawSocket)
      → rs.sock_fd ≡ some fd
      → opened w ≡ fd ∷ fds
      → Created k opened fds ethertype (failed k w rs)
  unfolding failed close_socket
  failed-Created fd w rs at held = inr (refl, refl, closed fd w rs at held)

  module _ (fits : ethertype < 65536) (fd : ℕ) where
    after_bind-Created :
        (w : W) (rs : RawSocket) (done : Bool)
        → rs.sock_fd ≡ some fd
        → opened w ≡ fd ∷ fds
        → IsValid rs
        → rs.ethertype ≡ ethertype
        → Created k opened fds ethertype (after_bind k fd w rs done)
    unfolding after_bind
    after_bind-Created w rs true at held valid type =
        inl (fd, at, at, held, valid, type, closed fd w rs at held)
    after_bind-Created w rs false at held valid type = failed-Created fd w rs at held

    after_hwaddr-Created :
        (w : W) (rs : RawSocket) (answer : Option (List ℕ))
        → ((sa_data : List ℕ) → answer ≡ some sa_data → length sa_data ≡ 14)
        → rs.sock_fd ≡ some fd
        → opened w ≡ fd ∷ fds
        → rs.ethertype ≡ ethertype
        → rs.session_id < 4294967296
        → Created k opened fds ethertype (after_hwaddr k fd w rs answer)
    unfolding after_hwaddr
    after_hwaddr-Created w rs none len at held type id = failed-Created fd w rs at held
    after_hwaddr-Created w rs (some sa_data) len at held type id =
        after_bind-Created _ (record rs { if_addr = take 6 sa_data }) _ at (ok.binds w fd _ ∙ held)
          (record {
            address = six_of sa_data (len sa_data refl);
            type_fits = omega arith;
            session_fits = id;
          })
          type

    after_index-Created :
        (w : W) (rs : RawSocket) (answer : Option ℕ)
        → rs.sock_fd ≡ some fd
        → opened w ≡ fd ∷ fds
        → rs.ethertype ≡ ethertype
        → rs.session_id < 4294967296
        → Created k opened fds ethertype (after_index k fd w rs answer)
    unfolding after_index
    after_index-Created w rs none at held type id = failed-Created fd w rs at held
    after_index-Created w rs (some index) at held type id =
        after_hwaddr-Created _ (record rs { if_index = index }) _ (ok.hwaddr_len w fd _) at
          (ok.hwaddr w fd _ ∙ held) type id

  after_socket-Created :
      ethertype < 65536
      → (w : W) (rs : RawSocket) (answer : Option ℕ) → rs.sock_fd ≡ none
      → opened w ≡ opening answer fds
      → rs.ethertype ≡ ethertype
      → rs.session_id < 4294967296
      → Created k opened fds ethertype (after_socket k w rs answer)
  unfolding after_socket failed close_socket close_fd
  after_socket-Created fits w rs none at held type id =
      inr (refl, refl, ap (λ o. opened (close_fd k w o)) at ∙ held)
  after_socket-Created fits w rs (some fd) at held type id =
      after_index-Created fits fd _ (record rs { sock_fd = some fd }) _ refl
        (ok.index w fd _ ∙ held) type id

-- Where the system calls do what is documented of them, create_socket opens exactly one descriptor and
-- returns it, in a structure whose fields are in range and which close_socket closes; or it returns
-- an error, and has left no descriptor open, whichever call failed. The EtherType is one of two bytes.
pub create_socket-Created :
    {W : Type 0} (k : Kernel W) (opened : W → List ℕ) (w : W) (if_name : List ℕ) (ethertype : ℕ)
    → IsKernel k opened
    → ethertype < 65536
    → Created k opened (opened w) ethertype (create_socket k w if_name ethertype)
unfolding create_socket
create_socket-Created k opened w if_name ethertype ok fits =
    after_socket-Created k opened ok (opened w) ethertype fits _ _ _ refl
      (ok.opens _ _ ∙ ap (opening _) (ok.random w)) refl (ok.random_fits w)
