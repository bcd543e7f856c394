-- ===== src/Download.antt =====
-- `DownloadManager` of mohpc-lib/Network/Client/DownloadManager.cpp: a file that the server sends in
-- numbered blocks.
pub mod Blocks
mod Tests
use mohpc.Base.{
  ℕ, ◌+◌, ◌-◌, ◌≡◌, List, [], ◌∷◌, ◌++◌, Bool, true, false, not, ◌||◌, ltb, ◌==◌, if◌then◌else◌,
  add_size, add_u32, u32_mod, Result, ok, err,
}
use mohpc.Base.Effects.{Effect, pure, throw, modify, read_state, ◌>>=◌, ◌>>◌}
use mohpc.Reliable.{ReliableSequence, add_command}

-- The exceptions of `ClientDownloadError`; `bad_message` is what reading the message throws.
pub data DownloadError : Type 0 where
  unexpected_download : DownloadError
  download_failed : List ℕ → DownloadError
  bad_size : ℕ → DownloadError
  bad_block : ℕ → ℕ → DownloadError
  bad_message : DownloadError

-- What the manager calls that it does not implement: the reads of the message, the parser of its
-- strings, the handlers (which may interrupt), the escaping of a name, and `std::to_string`.
pub record Environment : Type 1 where
  pub Msg : Type 0
  pub read_ushort : Msg → Result DownloadError (ℕ × Msg)
  pub read_integer : Msg → Result DownloadError (ℕ × Msg)
  pub read_data : ℕ → Msg → Result DownloadError (List ℕ × Msg)
  pub read_string : Msg → Result DownloadError (List ℕ × Msg)
  pub start_interrupts : List ℕ → Bool
  pub receive_interrupts : List ℕ → Bool
  pub escape_string : List ℕ → List ℕ
  pub to_string : ℕ → List ℕ

-- `delivered` is what the receive handlers were given, the last block at the end.
pub record DownloadManager : Type 0 where
  pub download_size : ℕ
  pub download_name : List ℕ
  pub download_block : ℕ
  pub download_requested : Bool
  pub sequence : ReliableSequence
  pub delivered : List (List ℕ)

abbrev pub max_download_size : ℕ
max_download_size = 49152

-- "stopdl", "donedl", "nextdl" and "download"
abbrev pub stop_command : List ℕ
stop_command = b's' ∷ b't' ∷ b'o' ∷ b'p' ∷ b'd' ∷ b'l' ∷ []

abbrev pub done_command : List ℕ
done_command = b'd' ∷ b'o' ∷ b'n' ∷ b'e' ∷ b'd' ∷ b'l' ∷ []

abbrev pub next_download_command : List ℕ
next_download_command = b'n' ∷ b'e' ∷ b'x' ∷ b't' ∷ b'd' ∷ b'l' ∷ []

abbrev pub start_download_command : List ℕ
start_download_command = b'd' ∷ b'o' ∷ b'w' ∷ b'n' ∷ b'l' ∷ b'o' ∷ b'a' ∷ b'd' ∷ []

-- `sequence->addCommand`
abbrev pub send : List ℕ → DownloadManager → DownloadManager
send command d = record d { sequence = add_command command d.sequence }

-- `clearDownload`
pub clear_download : DownloadManager → DownloadManager
clear_download d = record d { download_name = []; download_requested = false }

-- `cancelDownload`
pub cancel_download : DownloadManager → DownloadManager
unfolding clear_download
cancel_download d = send stop_command (clear_download d)

-- `downloadsComplete`
pub downloads_complete : DownloadManager → DownloadManager
downloads_complete d = send done_command d

abbrev Action : Type 0 → Type 0
Action = Effect DownloadManager DownloadError

-- A read of the message, which changes nothing of the manager.
abbrev pub lift : {A : Type 0} → Result DownloadError A → Action A
lift r d = (r, d)

module _ (env : Environment) where
  open env use {Msg, read_ushort, read_integer, read_data, read_string}

  -- `receive`: false if a handler interrupts.
  pub receive : List ℕ → DownloadManager → Bool × DownloadManager
  receive bytes d =
      (not (env.receive_interrupts bytes), record d { delivered = d.delivered ++ bytes ∷ [] })

  -- `startDownload`
  pub start_download : List ℕ → DownloadManager → DownloadManager
  start_download name d =
      if env.start_interrupts name
      then d
      else let d' =
          send (start_download_command ++ (b'"' ∷ (env.escape_string name ++ b'"' ∷ []))) d in
        record d' { download_requested = true; download_name = name }

  -- Block 0 starts with the size of the file.
  file_size : Msg → Action Msg
  unfolding cancel_download
  file_size msg = do
    (size, msg') ← lift (read_integer msg)
    if size == 0 || size == u32_mod - 1
        then (do
          modify cancel_download
          (reason, _) ← lift (read_string msg')
          throw (download_failed reason))
        else (do modify (λ d. record d { download_block = 0 }); pure msg')

  -- What becomes of the bytes of a block, or of the end of the file.
  store_block : ℕ → Msg → Action (Unit {0})
  unfolding receive cancel_download downloads_complete
  store_block size msg =
      if ltb 0 size
      then (do
        (bytes, _) ← lift (read_data size msg)
        going ← λ d. let (b, d') = receive bytes d in (ok b, d')
        if not going
            then modify cancel_download
            else modify (λ d.
              let d' = send (next_download_command ++ env.to_string d.download_block) d in
              record d' {
                download_size = add_size d.download_size size;
                download_block = add_u32 d.download_block 1;
              }))
      else modify (λ d.
        let d' = downloads_complete (clear_download d) in
        record d' { download_block = add_u32 d.download_block 1 })

  -- `processDownload`
  pub process_download : Msg → Action (Unit {0})
  unfolding file_size store_block
  process_download msg = do
    d ← read_state
    if not d.download_requested
        then (do modify (send stop_command); throw unexpected_download)
        else (do
          (block, msg') ← lift (read_ushort msg)
          rest ← if block == 0 then file_size msg' else pure msg'
          (size, rest') ← lift (read_ushort rest)
          if ltb max_download_size size then throw (bad_size size) else (do
            d' ← read_state
            if not (d'.download_block == block)
                then throw (bad_block block d'.download_block)
                else store_block size rest'))
