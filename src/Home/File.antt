-- ===== src/Home/File.antt =====
-- Files that hold one gob value: dumping (`os.Create`, then `Encode`) and loading at start
-- (`initContext`, `initCache` and `initAuth` of pkg/home share their text). What the operating system
-- answers is an argument.
use envd.Base.{Bool, Option, none, some, if◌then◌else◌}

-- Go's `error`: `none` is nil. The names follow the messages.
pub data Error : Type 0 where
  path_failed stat_failed create_failed close_failed open_failed : Error
  encode_failed decode_failed : Error
  already_exists unknown_builder unknown_runner : Error
  removes_current cannot_find does_not_exist no_current : Error

-- A file holds an encoded value, or bytes that do not decode (the empty file is one).
pub data File {ℓ} (A : Type ℓ) : Type ℓ where
  stored : A → File A
  damaged : File A

-- What the system does with a dump. `os.Create` truncates before `Encode` writes.
pub data DumpIo : Type 0 where
  written create_fails encode_fails : DumpIo

unfoldable pub dump {ℓ} :
    {A : Type ℓ} → DumpIo → A → Option (File A) → Option (File A) × Option Error
dump written a f = (some (stored a), none)
dump create_fails a f = (f, some create_failed)
dump encode_fails a f = (some damaged, some encode_failed)

-- What the system does while a file is loaded at start.
pub record InitIo : Type 0 where
  pub path_fails : Bool
  pub stat_fails : Bool
  pub create_fails : Bool
  pub close_fails : Bool
  pub dump_io : DumpIo
  pub open_fails : Bool

module _ {ℓ} {A : Type ℓ} (decode_over : A → A → A) where
  -- `e.Decode(&m.field)`: gob writes what it reads over the value that is there.
  unfoldable pub load : A → Option (File A) → A × Option Error
  load a none = (a, some open_failed)
  load a (some (stored b)) = (decode_over a b, none)
  load a (some damaged) = (a, some decode_failed)

  -- From `os.Open` on.
  unfoldable pub open_and_load : InitIo → A → Option (File A) → Option (File A) × A × Option Error
  unfolding load
  open_and_load io a f =
      if io.open_fails then (f, a, some open_failed) else (let (b, e) = load a f in (f, b, e))

  -- After the dump of a new file.
  unfoldable pub after_dump :
      InitIo → A → Option (File A) × Option Error → Option (File A) × A × Option Error
  unfolding open_and_load
  after_dump io a (f, none) = open_and_load io a f
  after_dump io a (f, some e) = (f, a, some e)

  -- `os.Stat` says that there is no file: create it, close it, and dump the value in memory.
  unfoldable pub create_file : InitIo → A → Option (File A) × A × Option Error
  unfolding after_dump dump
  create_file io a =
      if io.create_fails
      then (none, a, some create_failed)
      else if io.close_fails
      then (some damaged, a, some close_failed)
      else after_dump io a (dump io.dump_io a (some damaged))

  unfoldable pub init_file : InitIo → A → Option (File A) → Option (File A) × A × Option Error
  unfolding create_file open_and_load
  init_file io a none =
      if io.path_fails
      then (none, a, some path_failed)
      else if io.stat_fails
      then (none, a, some stat_failed)
      else create_file io a
  init_file io a (some f) =
      if io.path_fails
      then (some f, a, some path_failed)
      else if io.stat_fails
      then (some f, a, some stat_failed)
      else open_and_load io a (some f)
