-- ===== src/Download/Tests.antt =====
-- The download manager at concrete inputs: a message is the list of the numbers it holds.
use mohpc.Base.{
  ℕ, ◌+◌, ◌≡◌, ◌<◌, refl, arith, List, [], ◌∷◌, ◌++◌, Bool, true, false, Result, ok, err, take,
  drop, ltb, if◌then◌else◌,
}
use mohpc.Download.{DownloadManager, DownloadError, bad_message, Environment, process_download}
use mohpc.Download.Blocks.{process_all, process_all-delivers}

abbrev read_number : List ℕ → Result DownloadError (ℕ × List ℕ)
read_number [] = err bad_message
read_number (x ∷ rest) = ok (x, rest)

abbrev read_short : List ℕ → Result DownloadError (ℕ × List ℕ)
read_short [] = err bad_message
read_short (x ∷ rest) = if ltb x 65536 then ok (x, rest) else err bad_message

abbrev fields : Environment
fields = record {
  Msg = List ℕ;
  read_ushort = read_short;
  read_integer = read_number;
  read_data = λ n msg. ok (take n msg, drop n msg);
  read_string = λ msg. ok (msg, []);
  start_interrupts = λ _. false;
  receive_interrupts = λ _. false;
  escape_string = λ s. s;
  to_string = λ n. (n + 48) ∷ [];
}

abbrev manager : Bool → ℕ → DownloadManager
manager requested block = record {
  download_size = 0;
  download_name = b'a' ∷ [];
  download_block = block;
  download_requested = requested;
  sequence = record {
    store = record { slots = [] ∷ [] ∷ [] ∷ [] ∷ []; command_size = 16 };
    reliable_sequence = 0;
    reliable_acknowledge = 0;
  };
  delivered = [];
}

abbrev two_blocks : List (List ℕ × List ℕ)
two_blocks = ((1 ∷ 2 ∷ 7 ∷ 8 ∷ []), (7 ∷ 8 ∷ [])) ∷ ((2 ∷ 1 ∷ 9 ∷ []), (9 ∷ [])) ∷ []

runs : (process_all fields two_blocks (manager true 1)).delivered ≡ (7 ∷ 8 ∷ []) ∷ (9 ∷ []) ∷ []
unfolding process_all process_download
runs = refl

process_all-delivers_example :
    ((process_all fields two_blocks (manager true 1)).delivered
      ≡ [] ++ (7 ∷ 8 ∷ []) ∷ (9 ∷ []) ∷ [])
    × ((process_all fields two_blocks (manager true 1)).download_block ≡ 1 + 2)
    × ((process_all fields two_blocks (manager true 1)).download_requested ≡ true)
process_all-delivers_example =
    process_all-delivers fields two_blocks (manager true 1) refl (omega arith) (omega arith) (
      record {
        after_block = 2 ∷ 7 ∷ 8 ∷ [];
        after_size = 7 ∷ 8 ∷ [];
        after_data = [];
        block_read = refl;
        size_read = refl;
        data_read = refl;
        some_bytes = omega arith;
        fits = omega arith;
        kept = refl;
      },
      (
        record {
          after_block = 1 ∷ 9 ∷ [];
          after_size = 9 ∷ [];
          after_data = [];
          block_read = refl;
          size_read = refl;
          data_read = refl;
          some_bytes = omega arith;
          fits = omega arith;
          kept = refl;
        },
        tt,
      ),
    )

read_short_lt : (m m' : List ℕ) (n : ℕ) → read_short m ≡ ok (n, m') → n < 65536
read_short_lt [] m' n h = ground arith
read_short_lt (x ∷ rest) m' n h = ground arith
