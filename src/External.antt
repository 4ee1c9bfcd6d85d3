-- ===== src/External.antt =====
-- What the program uses of the libraries that it is built with (containers/image, containers/common,
-- containers/storage, pflag, yaml): their types are the fields of `Kinds`, and each library is a
-- record of the functions that are called.
pub mod Context
pub mod Files
pub mod Libraries
pub mod Names
pub mod Process
pub mod Contents
pub mod Retry
pub mod Images
pub mod Signatures
pub mod Inspection
pub mod Lab
