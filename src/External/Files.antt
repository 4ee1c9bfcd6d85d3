-- ===== src/External/Files.antt =====
-- What `filepath.Walk` finds below a path.
use skopeo.Prelude.Texts.{Text}
use skopeo.Go.{GoError}

mutual
  -- A file, a directory with its entries in the order of their names, a directory whose entries
  -- cannot be read, and a path whose file information cannot be read.
  pub data Tree : Type 0 where
    file : Tree
    dir : Entries → Tree
    unreadable : GoError → Tree
    missing : GoError → Tree

  pub data Entries : Type 0 where
    end : Entries
    entry : Text → Tree → Entries → Entries
