-- ===== src/Storage/Bitcask/Tasks/Tests.antt =====
-- The merging task of a small storage, at seven, which is no hour to merge in, and then at three.
use opal.Storage.Bitcask.Merge.Keeps.{Keeps}
