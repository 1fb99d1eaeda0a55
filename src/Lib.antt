-- ===== src/Lib.antt =====
-- tarbox: a file system for many tenants in a PostgreSQL database, with layers over the files.
--
-- The program keeps everything in tables. A path is resolved, child by child, to the row of an
-- inode (fs/operations.rs over storage/inode.rs). Contents are kept by layer/cow.rs, as blocks of
-- 4096 bytes or line by line, after layer/detection.rs has told which. Each change of a file is
-- recorded in the current layer of its tenant (layer/manager.rs over storage/layer.rs), and
-- layer/union_view.rs looks a file up through the chain of layers. composition/resolver.rs chooses
-- the mount of a path out of the table of storage/mount_entry.rs, whose layers
-- composition/layer_chain.rs takes snapshots of and composition/publisher.rs offers to other tenants.
-- wasi/fd_table.rs keeps the descriptors of a guest, csi/tenant_mapping.rs makes tenants of volume
-- claims. All paths are below src/ of the repository.
--
-- Which file models which part:
--   Base: texts as UTF-8 bytes, integers, lists and results that all parts share.
--   Path: fs/path.rs and fs/error.rs. Fs/Operations: fs/operations.rs.
--   Storage/Models: storage/models.rs and types.rs, the rows; `Db` has the tables.
--   Storage/Inodes, Blocks, Texts, Tenants, Layers: the statements of storage/inode.rs, block.rs,
--     text.rs, tenant.rs and layer.rs, with the keys, cascades and triggers of migrations/.
--   Layer/Detection, Lines, Cow, Manager, UnionView: layer/detection.rs, cow.rs, manager.rs and
--     union_view.rs; Lines is the cutting and joining of lines in cow.rs.
--   Layer/Hooks: layer/hooks.rs; Files, Reading and Writing are what the virtual files print and
--     parse, what they hold, and what is done when they are written.
--   Fuse/Interface: fuse/interface.rs, as a record of functions over the state of its
--     implementation. Fuse/Backend: fuse/backend.rs, which fills that record over the database;
--     Calls has its operations, ReadBack a write and reads after it. Fuse/InodeMap and
--     Fuse/Adapter: fuse/adapter.rs, whose callbacks take any such record; Sessions has the
--     sequences of callbacks.
--   Composition/Resolver: composition/resolver.rs and storage/models/mount_entry.rs.
--   Storage/MountEntries: storage/mount_entry.rs; Changes has its updates, deletions and
--     replacements, Stored what can be read of a row, Steps the sequences of statements on mounts and
--     on their layers.
--   Storage/PublishedMounts: storage/published_mount.rs and storage/models/published_mount.rs;
--     Access is who may use a publication.
--   Composition/LayerChain, Publisher: composition/layer_chain.rs and publisher.rs, over the
--     tables.
--   Wasi/FdTable, Error, Adapter: wasi/fd_table.rs, error.rs and adapter.rs.
--   Csi/TenantMapping, Snapshots, Controller: csi/tenant_mapping.rs, snapshot.rs and controller.rs.
--
-- An operation is a function of the database that returns its result and the next database. A
-- statement is atomic; an operation of several statements keeps the earlier ones if a later one
-- fails, unless the code opens a transaction. The errors of the database are violated keys and
-- statements that match no row or bind a wrong number of values; a lost connection is not modelled.
-- Ids are numbers: `next_uuid` stands for a fresh UUID and `next_inode` for the sequence. The time
-- is the field `clock`. Of the times of mounts and publications only the type of their columns is
-- modelled: it is TIMESTAMP, which the crate sqlx does not read as `DateTime<Utc>`, so the functions
-- that read a row of these tables always fail. Messages of errors are kept without the ids that they show.
--
-- Parameters: the record `Outside` of Layer/Cow has blake3, the hasher of the standard library,
-- the lossy decoding of UTF-8 and the diff of the crate similar. `IsLawful` states what is relied
-- on: no two texts have one blake3 hash, the two hashes differ, valid UTF-8 is decoded to itself.
-- The record `Outside` of Layer/Hooks/Files has serde_json, the texts of UUIDs and two columns that
-- no row here has; that of Fuse/Backend adds the order of names and the hash of a path. The buffer
-- of the kernel is an argument of `readdir`. The record `Outside` of Csi/Controller reads and writes
-- UUIDs as text; its `IsLawful` says that the empty text is none. `collate`, the order of names in
-- the database, and `show`, the text of a UUID, are arguments where a statement needs them.
--
-- Fuel: `chunks` takes the length of the content, of which each round takes a byte at least;
-- `get_layer_chain` takes the next id, and a parent has a smaller id than its child; a cascade
-- takes the number of inodes, which no chain of parents exceeds. All other loops are structural.
--
-- Not modelled: the mounting of FUSE, the gRPC services but for the calls of the controller, the
-- deletion of tenants, whose cascades depend on the order of the foreign keys, the command line and
-- the pool, which are input and output, and the audit log, with its foreign key to inodes, which would
-- refuse the deletion of an inode that has an audit row. The lengths of VARCHAR columns are not
-- limited, and the index of a data block is not limited to 32 bits.
pub mod Base
pub mod Path
pub mod Storage
pub mod Layer
pub mod Wasi
pub mod Fs
pub mod Fuse
pub mod Composition
pub mod Csi
