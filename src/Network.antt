-- ===== src/Network.antt =====
-- discnet/src/network: the buffers, the message codecs and the streams.
pub mod Buffer
pub mod Messages
pub mod ReadBuffer
pub mod NetworkHandler
pub mod UdpClient
pub mod DataHandler
pub mod DataStream
